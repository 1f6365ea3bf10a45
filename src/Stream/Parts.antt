-- ===== src/Stream/Parts.antt =====
-- stream/stream.go: the parts of a stream, how they are appended and compared.
use edge_observer.Prelude.{
  ℕ, ◌-◌, Bool, true, false, not, ◌&&◌, ◌||◌, List, [], ◌∷◌, Option, none, some, ◌==◌, ltb, leb,
  if◌then◌else◌, add64, sub64, length, take, drop, min, max_u64,
}

-- `GapReason`: a uint8 with these values.
abbrev pub gap_none : ℕ
gap_none = 0

abbrev pub gap_missing : ℕ
gap_missing = 1

abbrev pub gap_truncated : ℕ
gap_truncated = 2

-- `Part`.
pub record Part : Type 0 where
  pub offset : ℕ
  pub size : ℕ
  pub gap : ℕ
  pub bytes : List ℕ

-- One for each case of `Part.Validate`.
pub data Fault : Type 0 where
  covers_nothing no_kind wrong_bytes bytes_in_hole past_the_last : Fault

-- `Part.Validate`.
unfoldable pub validate : Part → Option Fault
validate p =
    if p.size == 0
    then some covers_nothing
    else if ltb gap_truncated p.gap
    then some no_kind
    else if p.gap == gap_none && not (length p.bytes == p.size)
    then some wrong_bytes
    else if not (p.gap == gap_none) && not (length p.bytes == 0)
    then some bytes_in_hole
    else if ltb (max_u64 - p.size) p.offset
    then some past_the_last
    else none

-- The last part grown by `p`, where both are the same kind of hole and meet; else `p` behind it.
unfoldable pub join : Part → Part → List Part
join last p =
    if not (p.gap == gap_none) && last.gap == p.gap && add64 last.offset last.size == p.offset
    then record last { size = add64 last.size p.size } ∷ []
    else last ∷ p ∷ []

unfoldable pub append_part : List Part → Part → List Part
unfolding join
append_part [] p = p ∷ []
append_part (last ∷ []) p = join last p
append_part (q ∷ r ∷ ps) p = q ∷ append_part (r ∷ ps) p

-- `Stream.append`.
unfoldable pub append : List Part → Part → List Part
unfolding append_part
append parts p = if p.size == 0 then parts else append_part parts p

-- `bytes.Equal`.
unfoldable pub equal_bytes : List ℕ → List ℕ → Bool
equal_bytes [] [] = true
equal_bytes (x ∷ xs) (y ∷ ys) = x == y && equal_bytes xs ys
equal_bytes _ _ = false

abbrev pub is_empty : List ℕ → Bool
is_empty [] = true
is_empty (x ∷ xs) = false

-- `Stream.agreesAt`.
unfoldable pub agrees_at : List Part → ℕ → List ℕ → Bool
unfolding equal_bytes
agrees_at [] offset want = true
agrees_at (p ∷ ps) offset want =
    let within = sub64 offset p.offset in
    let n = min (length want) (sub64 p.size within) in
    let later = agrees_at ps offset want in
    let rest = agrees_at ps (add64 offset n) (drop n want) in
    if is_empty want
    then true
    else if leb (add64 p.offset p.size) offset || ltb offset p.offset
    then later
    else if p.gap == gap_none && not (equal_bytes (take n (drop within p.bytes)) (take n want))
    then false
    else rest

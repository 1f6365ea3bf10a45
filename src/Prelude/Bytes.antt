-- ===== src/Prelude/Bytes.antt =====
-- Text as its bytes, and what the program uses of the standard library's strings on it.
pub mod Blanks
use Prim.Native.Char.{code}
use Prim.Native.String.{String}
use Prim.Native.Nat.{ℕ, zero, suc, ◌+◌, ◌-◌, ◌*◌, ◌≤◌, ◌<◌}
use mathlib.Core.Path.{◌≡◌, refl, sym, ap, ◌∙◌}
use mathlib.Core.Logic.{◌≢◌, ◌↔◌}
use mathlib.Core.Bool.{Bool, true, false, not, ◌&&◌, ◌||◌}
use mathlib.Core.Option.{Option, none, some}
use mathlib.Core.List.{List, [], ◌∷◌, ◌++◌}
use native.Mathlib.Omega.{arith}
use edge_observer.Prelude.Tests.{ltb, leb, ◌==◌, if◌then◌else◌}

-- The bytes of an ASCII text.
abbrev pub codes : String → List ℕ
codes String.[] = []
codes (String.◌∷◌ c s) = code c ∷ codes s

-- `==` on texts.
unfoldable pub same_bytes : List ℕ → List ℕ → Bool
same_bytes [] [] = true
same_bytes (x ∷ xs) (y ∷ ys) = x == y && same_bytes xs ys
same_bytes _ _ = false

pub same_bytes_iff : (xs ys : List ℕ) → (same_bytes xs ys ≡ true) ↔ (xs ≡ ys)
unfolding same_bytes
same_bytes_iff [] [] = ground arith
same_bytes_iff [] (y ∷ ys) = ground arith
same_bytes_iff (x ∷ xs) [] = ground arith
same_bytes_iff (x ∷ xs) (y ∷ ys) = ground (arith, same_bytes_iff xs ys)

abbrev pub lower_byte : ℕ → ℕ
lower_byte c = if leb 65 c && leb c 90 then c + 32 else c

-- `strings.EqualFold`, where one text is ASCII and the other holds tokens.
unfoldable pub equal_fold : List ℕ → List ℕ → Bool
equal_fold [] [] = true
equal_fold (x ∷ xs) (y ∷ ys) = lower_byte x == lower_byte y && equal_fold xs ys
equal_fold _ _ = false

-- A byte that a token may hold (RFC 9110 section 5.6.2).
unfoldable pub is_mark : List ℕ → ℕ → Bool
is_mark [] c = false
is_mark (x ∷ xs) c = x == c || is_mark xs c

unfoldable pub is_tchar : ℕ → Bool
unfolding is_mark
is_tchar c =
    (leb 97 c && leb c 122)
    || (leb 65 c && leb c 90)
    || (leb 48 c && leb c 57)
    || is_mark (codes "!#$%&'*+-.^_`|~") c

unfoldable pub all_bytes : (ℕ → Bool) → List ℕ → Bool
all_bytes test [] = true
all_bytes test (c ∷ cs) = test c && all_bytes test cs

-- `strings.IndexByte`.
unfoldable pub index_byte : List ℕ → ℕ → Option ℕ
index_byte [] c = none
index_byte (x ∷ xs) c =
    let later = index_byte xs c in
    if x == c then some 0 else elim later [ none ↦ none | some i ↦ some (suc i) ]

-- `strings.Split`, at one byte.
unfoldable pub push_byte : ℕ → List (List ℕ) → List (List ℕ)
push_byte c [] = (c ∷ []) ∷ []
push_byte c (w ∷ ws) = (c ∷ w) ∷ ws

unfoldable pub split_at : ℕ → List ℕ → List (List ℕ)
unfolding push_byte
split_at c [] = [] ∷ []
split_at c (x ∷ xs) = let rest = split_at c xs in if x == c then [] ∷ rest else push_byte x rest

-- `strings.Join`.
unfoldable pub join_with : ℕ → List (List ℕ) → List ℕ
join_with c [] = []
join_with c (w ∷ []) = w
join_with c (w ∷ v ∷ ws) = w ++ c ∷ join_with c (v ∷ ws)

pub split_at-cons : (c : ℕ) (xs : List ℕ) → split_at c xs ≢ []
unfolding split_at push_byte
split_at-cons c [] e = cc
split_at-cons c (x ∷ xs) e = ground (arith, split_at-cons c xs)

join_with-push :
    (c x : ℕ) (ws : List (List ℕ)) → ws ≢ [] → join_with c (push_byte x ws) ≡ x ∷ join_with c ws
unfolding join_with push_byte
join_with-push c x [] h = absurd (h refl)
join_with-push c x (w ∷ []) h = refl
join_with-push c x (w ∷ v ∷ ws) h = refl

join_with-nil : (c : ℕ) (ws : List (List ℕ)) → ws ≢ [] → join_with c ([] ∷ ws) ≡ c ∷ join_with c ws
unfolding join_with
join_with-nil c [] h = absurd (h refl)
join_with-nil c (w ∷ ws) h = refl

pub join_with-split_at : (c : ℕ) (xs : List ℕ) → join_with c (split_at c xs) ≡ xs
unfolding split_at join_with
join_with-split_at c [] = refl
join_with-split_at c (x ∷ xs) = ground (
  arith,
  join_with-split_at c xs,
  join_with-push c x (split_at c xs),
  join_with-nil c (split_at c xs),
  split_at-cons c xs,
)

abbrev pub is_blank : ℕ → Bool
is_blank c = c == 32 || c == 9

-- `strings.TrimLeft` and `strings.Trim` with " \t".
unfoldable pub trim_left : List ℕ → List ℕ
trim_left [] = []
trim_left (c ∷ cs) = let rest = trim_left cs in if is_blank c then rest else c ∷ cs

unfoldable pub trim_right : List ℕ → List ℕ
trim_right [] = []
trim_right (c ∷ cs) =
    let rest = trim_right cs in
    elim rest [ [] ↦ if is_blank c then [] else c ∷ [] | d ∷ ds ↦ c ∷ d ∷ ds ]

unfoldable pub trim : List ℕ → List ℕ
unfolding trim_left trim_right
trim cs = trim_right (trim_left cs)

abbrev pub is_digit : ℕ → Bool
is_digit c = leb 48 c && leb c 57

-- The value of a decimal numeral, read on from `n`.
unfoldable pub decimal_from : ℕ → List ℕ → ℕ
decimal_from n [] = n
decimal_from n (c ∷ cs) = decimal_from (n * 10 + (c - 48)) cs

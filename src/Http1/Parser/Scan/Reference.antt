-- ===== src/Http1/Parser/Scan/Reference.antt =====
-- stream/cursor.go, `ReadLine`: the bytes of one part read into a line; and that `scanLine` of
-- http1/parser.go finds the same line.
use mathlib.Core.List.{append-nil, append_assoc}
use edge_observer.Prelude.{
  ℕ, ◌+◌, ◌-◌, ◌<◌, ◌≡◌, refl, sym, ap, ◌∙◌, Bool, true, false, ◌&&◌, ◌||◌, List, [], ◌∷◌, ◌++◌,
  arith, ltb, ◌==◌, if◌then◌else◌, length, length-append, take,
}
use edge_observer.Http1.Parser.Scan.{Scanned, scan_from, scan_line}

-- How a line stands after the bytes of a part: ended or too long, after so many bytes, or open.
pub data LineRead : Type 0 where
  ended : ℕ → List ℕ → LineRead
  too_long : ℕ → LineRead
  open_ : List ℕ → Bool → LineRead

abbrev pub with_cr : List ℕ → Bool → List ℕ
with_cr line saw_cr = if saw_cr then line ++ (13 ∷ []) else line

-- The loop of `ReadLine` over the bytes of a part.
unfoldable pub read_bytes : ℕ → List ℕ → Bool → ℕ → List ℕ → LineRead
read_bytes max line saw_cr i [] = open_ line saw_cr
read_bytes max line saw_cr i (b ∷ bs) =
    let longer = with_cr line saw_cr ++ (b ∷ []) in
    let held = read_bytes max (with_cr line saw_cr) true (i + 1) bs in
    let on = read_bytes max longer false (i + 1) bs in
    if saw_cr && b == 10
    then ended (i + 1) line
    else if saw_cr && ltb max (length (with_cr line saw_cr))
    then too_long (i + 1)
    else if b == 13
    then held
    else if ltb max (length longer)
    then too_long (i + 1)
    else on

-- What a scan of these bytes makes of the line.
unfoldable pub line_after : List ℕ → List ℕ → Scanned → LineRead
line_after line bytes s =
    let now = with_cr line s.prepend_cr ++ take s.to bytes in
    if s.done
    then ended s.consumed now
    else if s.too_long
    then too_long s.consumed
    else open_ now s.saw_cr

take_front : (xs ys : List ℕ) → take (length xs) (xs ++ ys) ≡ xs
take_front [] ys = refl
take_front (x ∷ xs) ys = ap (λ (t : List ℕ). x ∷ t) (take_front xs ys)

length-snoc : (xs : List ℕ) (b : ℕ) → length (xs ++ (b ∷ [])) ≡ length xs + 1
length-snoc xs b = omega (arith, length-append xs (b ∷ []))

take_cr : (xs ys : List ℕ) → take (length (xs ++ (13 ∷ [])) - 1) (xs ++ (13 ∷ []) ++ ys) ≡ xs
take_cr xs ys =
    ap (λ (n : ℕ). take n (xs ++ (13 ∷ []) ++ ys)) (omega (arith, length-snoc xs 13))
    ∙ ap (take (length xs)) (append_assoc xs (13 ∷ []) ys)
    ∙ take_front xs (13 ∷ ys)

or_zero : (p : Bool) (i : ℕ) → 0 < i → (p || i == 0) ≡ p
or_zero p i h = ground arith

-- Where a scan stands after its first byte, in a line whose start is kept as `start`: `body` is what
-- the line has gained, but for a carriage return at the end, and `bs` what is still to be read.
module _ (max : ℕ) (start whole : List ℕ) (prepend_cr : Bool) where
  abbrev Reads : List ℕ → Bool → ℕ → List ℕ → List ℕ → Type 0
  Reads body saw_cr i line bs =
      (line ≡ with_cr start prepend_cr ++ body)
      × (with_cr body saw_cr ++ bs ≡ whole)
      × (i ≡ length (with_cr body saw_cr))
      × (0 < i)

  read_end :
      (body line bs : List ℕ) (saw_cr : Bool) (i : ℕ)
      → Reads body saw_cr i line bs
      → with_cr start prepend_cr ++ take (if saw_cr then i - 1 else i) whole ≡ line
  read_end body line bs true i (l, w, e, p) =
      rw (e, sym w) (ap (λ (t : List ℕ). with_cr start prepend_cr ++ t) (take_cr body bs)) ∙ sym l
  read_end body line bs false i (l, w, e, p) =
      rw (e, sym w) (ap (λ (t : List ℕ). with_cr start prepend_cr ++ t) (take_front body bs))
      ∙ sym l

  read_cr :
      (body line bs : List ℕ) (saw_cr : Bool) (i : ℕ)
      → Reads body saw_cr i line (13 ∷ bs)
      → Reads (with_cr body saw_cr) true (i + 1) (with_cr line saw_cr) bs
  read_cr body line bs true i (l, w, e, p) = (
    ground (arith, append_assoc (with_cr start prepend_cr) body (13 ∷ [])),
    ap (λ (t : List ℕ). t) (append_assoc (body ++ (13 ∷ [])) (13 ∷ []) bs) ∙ w,
    ground (arith, length-snoc (body ++ (13 ∷ [])) 13),
    omega arith,
  )
  read_cr body line bs false i (l, w, e, p) =
      (l, append_assoc body (13 ∷ []) bs ∙ w, ground (arith, length-snoc body 13), omega arith)

  read_other :
      (body line bs : List ℕ) (b : ℕ) (saw_cr : Bool) (i : ℕ)
      → Reads body saw_cr i line (b ∷ bs)
      → Reads (with_cr body saw_cr ++ (b ∷ [])) false (i + 1) (with_cr line saw_cr ++ (b ∷ [])) bs
  read_other body line bs b true i (l, w, e, p) = (
    rw l (simp append_assoc),
    append_assoc (body ++ (13 ∷ [])) (b ∷ []) bs ∙ w,
    ground (arith, length-snoc (body ++ (13 ∷ [])) b),
    omega arith,
  )
  read_other body line bs b false i (l, w, e, p) = (
    rw l (append_assoc (with_cr start prepend_cr) body (b ∷ [])),
    append_assoc body (b ∷ []) bs ∙ w,
    ground (arith, length-snoc body b),
    omega arith,
  )

  scan_from_lem :
      (body line bs : List ℕ) (saw_cr : Bool) (i : ℕ)
      → Reads body saw_cr i line bs
      → line_after start whole (scan_from max i (length line) saw_cr prepend_cr bs)
        ≡ read_bytes max line saw_cr i bs
  unfolding scan_from read_bytes line_after
  scan_from_lem body line [] saw_cr i r =
      ap (λ (t : List ℕ). open_ t saw_cr) (read_end body line [] saw_cr i r)
  scan_from_lem body line (b ∷ bs) true i r = ground (
    arith,
    read_end body line (b ∷ bs) true i r,
    (λ (e : b ≡ 13). scan_from_lem _ _ bs true (i + 1) (read_cr body line bs true i (rw e at r))),
    scan_from_lem _ _ bs false (i + 1) (read_other body line bs b true i r),
    length-snoc line 13,
    length-snoc (line ++ (13 ∷ [])) b,
    or_zero prepend_cr i,
    r,
  )
  scan_from_lem body line (b ∷ bs) false i r = ground (
    arith,
    (λ (e : b ≡ 13). scan_from_lem _ _ bs true (i + 1) (read_cr body line bs false i (rw e at r))),
    scan_from_lem _ _ bs false (i + 1) (read_other body line bs b false i r),
    length-snoc line b,
  )

-- The line that a scan finds is the one that `ReadLine` reads of the same bytes.
pub scan_line-read_bytes :
    (max b : ℕ) (line bs : List ℕ) (saw_cr : Bool)
    → line_after line (b ∷ bs) (scan_line (b ∷ bs) (length line) saw_cr max)
      ≡ read_bytes max line saw_cr 0 (b ∷ bs)
unfolding scan_line scan_from read_bytes line_after
scan_line-read_bytes max b line bs true = ground (
  arith,
  append-nil line,
  (λ (e : b ≡ 13).
      scan_from_lem max line (b ∷ bs) true [] _ bs true 1
        (sym (append-nil (line ++ (13 ∷ []))), ap (λ (c : ℕ). c ∷ bs) (sym e), refl, omega arith)),
  scan_from_lem max line (b ∷ bs) true (b ∷ []) _ bs false 1 (refl, refl, refl, omega arith),
  length-snoc line 13,
  length-snoc (line ++ (13 ∷ [])) b,
)
scan_line-read_bytes max b line bs false = ground (
  arith,
  (λ (e : b ≡ 13).
      scan_from_lem max line (b ∷ bs) false [] _ bs true 1
        (sym (append-nil line), ap (λ (c : ℕ). c ∷ bs) (sym e), refl, omega arith)),
  scan_from_lem max line (b ∷ bs) false (b ∷ []) _ bs false 1 (refl, refl, refl, omega arith),
  length-snoc line b,
)

read_bytes-append :
    (max i : ℕ) (line xs ys now : List ℕ) (saw_cr saw_now : Bool)
    → read_bytes max line saw_cr i xs ≡ open_ now saw_now
    → read_bytes max line saw_cr i (xs ++ ys) ≡ read_bytes max now saw_now (i + length xs) ys
unfolding read_bytes
read_bytes-append max i line [] ys now saw_cr saw_now h = ground arith
read_bytes-append max i line (x ∷ xs) ys now saw_cr saw_now h = ground (
  arith,
  read_bytes-append max (i + 1) (with_cr line saw_cr) xs ys now true saw_now,
  read_bytes-append max (i + 1) (with_cr line saw_cr ++ (x ∷ [])) xs ys now false saw_now,
)

-- The bytes before these count too.
abbrev pub later_by : ℕ → LineRead → LineRead
later_by n (ended k line) = ended (n + k) line
later_by n (too_long k) = too_long (n + k)
later_by n (open_ line saw_cr) = open_ line saw_cr

read_bytes-later_by :
    (max n i : ℕ) (line ys : List ℕ) (saw_cr : Bool)
    → read_bytes max line saw_cr (n + i) ys ≡ later_by n (read_bytes max line saw_cr i ys)
unfolding read_bytes
read_bytes-later_by max n i line [] saw_cr = refl
read_bytes-later_by max n i line (y ∷ ys) saw_cr = ground (
  arith,
  read_bytes-later_by max n (i + 1) (with_cr line saw_cr) ys true,
  read_bytes-later_by max n (i + 1) (with_cr line saw_cr ++ (y ∷ [])) ys false,
)

-- A line is found the same however its bytes are cut into parts.
pub scan_line-append :
    (max x y : ℕ) (line xs ys now : List ℕ) (saw_cr saw_now : Bool)
    → line_after line (x ∷ xs) (scan_line (x ∷ xs) (length line) saw_cr max) ≡ open_ now saw_now
    → line_after line (x ∷ xs ++ y ∷ ys) (scan_line (x ∷ xs ++ y ∷ ys) (length line) saw_cr max)
      ≡ later_by
          (length (x ∷ xs))
          (line_after now (y ∷ ys) (scan_line (y ∷ ys) (length now) saw_now max))
scan_line-append max x y line xs ys now saw_cr saw_now h =
    scan_line-read_bytes max x line (xs ++ y ∷ ys) saw_cr
    ∙ read_bytes-append max 0 line (x ∷ xs) (y ∷ ys) now saw_cr saw_now
        (sym (scan_line-read_bytes max x line xs saw_cr) ∙ h)
    ∙ ap (λ (n : ℕ). read_bytes max now saw_now n (y ∷ ys)) (omega arith)
    ∙ read_bytes-later_by max (length (x ∷ xs)) 0 now (y ∷ ys) saw_now
    ∙ ap (later_by (length (x ∷ xs))) (sym (scan_line-read_bytes max y now ys saw_now))

-- ===== src/Stream/Cursor/Present.antt =====
-- The bytes that a stream carries at a run of offsets, the holes among them, and what is kept.
use edge_observer.Prelude.{
  ℕ, zero, suc, ◌+◌, ◌-◌, ◌≤◌, ◌≡◌, ◌≢◌, refl, sym, ap, ◌∙◌, List, [], ◌∷◌, ◌++◌, none, some, take,
  drop, length, length-take, length-append, min, arith,
}
use mathlib.Core.List.{append-nil, append_assoc}
use edge_observer.Stream.Parts.{Part, gap_none, validate}
use edge_observer.Stream.Carried.{byte_at}
use edge_observer.Stream.Cursor.Bytes.{bytes_from, drop-get_elem?}

-- The bytes that are carried at `n` offsets from `pos` on, and the number of those without one.
abbrev pub present : List Part → ℕ → ℕ → List ℕ
present ps pos zero = []
present ps pos (suc n) = elim (byte_at ps pos) [
  | none ↦ present ps (pos + 1) n
  | some b ↦ b ∷ present ps (pos + 1) n
]

abbrev pub holes : List Part → ℕ → ℕ → ℕ
holes ps pos zero = 0
holes ps pos (suc n) = elim (byte_at ps pos) [
  | none ↦ suc (holes ps (pos + 1) n)
  | some b ↦ holes ps (pos + 1) n
]

-- `xs` behind what is kept already, of both no more than `keep`.
abbrev pub kept : ℕ → List ℕ → List ℕ → List ℕ
kept keep out xs = out ++ take (keep - length out) xs

present-some :
    (ps : List Part) (pos n x : ℕ)
    → byte_at ps pos ≡ some x
    → (present ps pos (suc n) ≡ x ∷ present ps (pos + 1) n)
      × (holes ps pos (suc n) ≡ holes ps (pos + 1) n)
present-some ps pos n x e = (ground (arith, e), ground (arith, e))

present-none :
    (ps : List Part) (pos n : ℕ)
    → byte_at ps pos ≡ none
    → (present ps pos (suc n) ≡ present ps (pos + 1) n)
      × (holes ps pos (suc n) ≡ suc (holes ps (pos + 1) n))
present-none ps pos n e = (ground (arith, e), ground (arith, e))

-- The first `t` of the offsets, all inside of one part that has bytes.
pub present-bytes :
    (p : Part) (ps : List Part) (t m pos : ℕ)
    → validate p ≡ none
    → p.gap ≡ gap_none
    → p.offset ≤ pos
    → pos + t ≤ p.offset + p.size
    → (present (p ∷ ps) pos (t + m)
        ≡ take t (drop (pos - p.offset) p.bytes) ++ present (p ∷ ps) (pos + t) m)
      × (holes (p ∷ ps) pos (t + m) ≡ holes (p ∷ ps) (pos + t) m)
unfolding validate
present-bytes p ps zero m pos v g from to = (ground arith, ground arith)
present-bytes p ps (suc t) m pos v g from to =
    let (x, e, d) = drop-get_elem? p.bytes (pos - p.offset) (ground arith) in
    let later = present-bytes p ps t m (pos + 1) v g (omega arith) (omega arith) in
    let here : byte_at (p ∷ ps) pos ≡ some x = ground (arith, e) in
    let first = present-some (p ∷ ps) pos (t + m) x here in
    let next : (pos + 1) - p.offset ≡ suc (pos - p.offset) = omega arith in
    let past : pos + suc t ≡ pos + 1 + t = omega arith in
    let more : suc t + m ≡ suc (t + m) = omega arith in
    (
      rw (more, d, past) (first.0 ∙ ap (λ (l : List ℕ). x ∷ l) (rw next at later.0)),
      rw (more, past) (first.1 ∙ later.1),
    )

-- The same inside of a hole.
pub present-hole :
    (p : Part) (ps : List Part) (t m pos : ℕ)
    → p.gap ≢ gap_none
    → pos + t ≤ p.offset + p.size
    → (present (p ∷ ps) pos (t + m) ≡ present (p ∷ ps) (pos + t) m)
      × (holes (p ∷ ps) pos (t + m) ≡ t + holes (p ∷ ps) (pos + t) m)
present-hole p ps zero m pos g to = (ground arith, ground arith)
present-hole p ps (suc t) m pos g to =
    let later = present-hole p ps t m (pos + 1) g (omega arith) in
    let first = present-none (p ∷ ps) pos (t + m) (ground arith) in
    let past : pos + suc t ≡ pos + 1 + t = omega arith in
    let more : suc t + m ≡ suc (t + m) = omega arith in
    let rest = holes (p ∷ ps) (pos + 1 + t) m in
    let count : suc (t + rest) ≡ suc t + rest = omega arith in
    (rw (more, past) (first.0 ∙ later.0), rw (more, past) (first.1 ∙ ap suc later.1 ∙ count))

-- What carries the same bytes has the same present and the same holes.
pub byte_at-bytes_from :
    (ps qs : List Part) (o : ℕ)
    → bytes_from ps o 1 ≡ bytes_from qs o 1
    → byte_at ps o ≡ byte_at qs o
byte_at-bytes_from ps qs o e = ground (arith, e)

pub present-same :
    (ps qs : List Part) (pos n : ℕ)
    → ((o : ℕ) → pos ≤ o → byte_at ps o ≡ byte_at qs o)
    → (present ps pos n ≡ present qs pos n) × (holes ps pos n ≡ holes qs pos n)
present-same ps qs pos zero same = (refl, refl)
present-same ps qs pos (suc n) same =
    let later = present-same ps qs (pos + 1) n (λ o h. same o (omega (arith, h))) in
    let here = same pos (omega arith) in
    (ground (arith, here, later.0), ground (arith, here, later.1))

take-append : (k : ℕ) (xs ys : List ℕ) → take k (xs ++ ys) ≡ take k xs ++ take (k - length xs) ys
take-append zero [] ys = refl
take-append zero (x ∷ xs) ys = ground arith
take-append (suc k) [] ys = let e : suc k ≡ suc k - 0 = omega arith in ap (λ (n : ℕ). take n ys) e
take-append (suc k) (x ∷ xs) ys =
    let e : k - length xs ≡ suc k - suc (length xs) = omega arith in
    ap (λ (l : List ℕ). x ∷ l) (take-append k xs ys ∙ ap (λ (n : ℕ). take k xs ++ take n ys) e)

pub take-take : (r t : ℕ) (xs : List ℕ) → take r (take t xs) ≡ take (min t r) xs
take-take zero t xs = ground arith
take-take (suc r) zero xs = let e : 0 ≡ min 0 (suc r) = omega arith in ap (λ (n : ℕ). take n xs) e
take-take (suc r) (suc t) [] =
    let e : suc (min t r) ≡ min (suc t) (suc r) = omega arith in ap (λ (n : ℕ). take n []) e
take-take (suc r) (suc t) (x ∷ xs) = ground (arith, take-take r t xs)

take-nil : (k : ℕ) → take {A = ℕ} k [] ≡ []
take-nil zero = refl
take-nil (suc k) = refl

pub kept-nil : (keep : ℕ) (out : List ℕ) → kept keep out [] ≡ out
kept-nil keep out = ap (λ (l : List ℕ). out ++ l) (take-nil (keep - length out)) ∙ append-nil out

pub kept-kept :
    (keep : ℕ) (out xs ys : List ℕ) → kept keep (kept keep out xs) ys ≡ kept keep out (xs ++ ys)
kept-kept keep out xs ys =
    let left : keep - length (kept keep out xs) ≡ (keep - length out) - length xs = omega (
      arith,
      length-append out (take (keep - length out) xs),
      length-take (keep - length out) xs,
    ) in
    append_assoc out _ _
    ∙ ap (λ (l : List ℕ). out ++ l)
        (ap (λ (k : ℕ). take (keep - length out) xs ++ take k ys) left
          ∙ sym (take-append (keep - length out) xs ys))

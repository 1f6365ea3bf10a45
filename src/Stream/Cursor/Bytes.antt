-- ===== src/Stream/Cursor/Bytes.antt =====
-- The bytes that a stream carries from an offset on, and the part where a cursor looks for them.
use edge_observer.Prelude.{
  ◌%◌, ℕ, zero, suc, ◌+◌, ◌-◌, ◌≤◌, ◌<◌, ◌≡◌, refl, sym, ap, ◌∙◌, List, [], ◌∷◌, ◌++◌, Option, none,
  some, ltb, add64, u64_mod, take, drop, length, get_elem?, arith, Bool-cases, inl, inr,
}
use mathlib.Core.List.{append_assoc}
use edge_observer.Stream.Parts.{Part, gap_none, validate}
use edge_observer.Stream.Cover.{Covers}
use edge_observer.Stream.Carried.{byte_at, Covers-le}
use edge_observer.Stream.Cursor.{Outcome, bytes, failed, gap, find_from}

-- The bytes carried at `n` offsets from `pos` on, where each of them has one.
abbrev pub bytes_from : List Part → ℕ → ℕ → Option (List ℕ)
bytes_from ps pos zero = some []
bytes_from ps pos (suc n) = elim (byte_at ps pos) [
  | none ↦ none
  | some b ↦ elim (bytes_from ps (pos + 1) n) [ none ↦ none | some bs ↦ some (b ∷ bs) ]
]

-- What a read returns of them, behind those read before.
abbrev pub outcome : List ℕ → Option (List ℕ) → Outcome
outcome out none = failed gap
outcome out (some bs) = bytes (out ++ bs)

abbrev pub behind : List ℕ → Option (List ℕ) → Option (List ℕ)
behind xs none = none
behind xs (some bs) = some (xs ++ bs)

pub outcome-behind :
    (out xs : List ℕ) (r : Option (List ℕ)) → outcome (out ++ xs) r ≡ outcome out (behind xs r)
outcome-behind out xs none = refl
outcome-behind out xs (some bs) = ap bytes (append_assoc out xs bs)

pub behind-nil : (r : Option (List ℕ)) → behind [] r ≡ r
behind-nil none = refl
behind-nil (some bs) = refl

behind-cons :
    (b : ℕ) (xs : List ℕ) (r : Option (List ℕ))
    → elim (behind xs r) as (λ _. Option (List ℕ)) [ none ↦ none | some bs ↦ some (b ∷ bs) ]
      ≡ behind (b ∷ xs) r
behind-cons b xs none = refl
behind-cons b xs (some bs) = refl

pub drop-get_elem? :
    (xs : List ℕ) (w : ℕ)
    → w < length xs
    → (b : ℕ) × (get_elem? xs w ≡ some b) × (drop w xs ≡ b ∷ drop (suc w) xs)
drop-get_elem? [] w h = absurd (omega (arith, h))
drop-get_elem? (x ∷ xs) zero h = (x, refl, refl)
drop-get_elem? (x ∷ xs) (suc w) h = drop-get_elem? xs w (omega (arith, h))

bytes_from-suc :
    (ps : List Part) (pos n x : ℕ) (xs : List ℕ) (r : Option (List ℕ))
    → byte_at ps pos ≡ some x
    → bytes_from ps (pos + 1) n ≡ behind xs r
    → bytes_from ps pos (suc n) ≡ behind (x ∷ xs) r
bytes_from-suc ps pos n x xs r e f = ground (arith, e, f, behind-cons x xs r)

-- The first `t` of the offsets, all inside of one part that has bytes.
pub bytes_from-behind :
    (p : Part) (ps : List Part) (t m pos : ℕ)
    → validate p ≡ none
    → p.gap ≡ gap_none
    → p.offset ≤ pos
    → pos + t ≤ p.offset + p.size
    → bytes_from (p ∷ ps) pos (t + m)
      ≡ behind (take t (drop (pos - p.offset) p.bytes)) (bytes_from (p ∷ ps) (pos + t) m)
unfolding validate
bytes_from-behind p ps zero m pos v g from to =
    ground (arith, behind-nil (bytes_from (p ∷ ps) pos m))
bytes_from-behind p ps (suc t) m pos v g from to =
    let (x, e, d) = drop-get_elem? p.bytes (pos - p.offset) (ground arith) in
    let later = bytes_from-behind p ps t m (pos + 1) v g (omega arith) (omega arith) in
    let here : byte_at (p ∷ ps) pos ≡ some x = ground (arith, e) in
    let next : (pos + 1) - p.offset ≡ suc (pos - p.offset) = omega arith in
    let past : pos + suc t ≡ pos + 1 + t = omega arith in
    let more : suc t + m ≡ suc (t + m) = omega arith in
    rw (more, d, past) (bytes_from-suc (p ∷ ps) pos (t + m) x _ _ here (rw next at later))

pub bytes_from-past :
    (p : Part) (ps : List Part) (n pos : ℕ)
    → p.offset + p.size ≤ pos
    → bytes_from (p ∷ ps) pos n ≡ bytes_from ps pos n
bytes_from-past p ps zero pos h = refl
bytes_from-past p ps (suc n) pos h = ground (arith, bytes_from-past p ps n (pos + 1) (omega arith))

-- The part at an offset of what is left, and what is left from it on.
pub find_from-some :
    (rest : List Part) (idx a b pos : ℕ)
    → Covers a rest b
    → a ≤ pos
    → pos < b
    → b < u64_mod
    → (k : ℕ) × (p : Part) × (ps : List Part) × (find_from pos idx rest ≡ (idx + k, some p))
      × (drop k rest ≡ p ∷ ps)
      × Covers p.offset (p ∷ ps) b
      × (p.offset ≤ pos)
      × (pos < p.offset + p.size)
      × ((o n : ℕ) → pos ≤ o → bytes_from rest o n ≡ bytes_from (p ∷ ps) o n)
unfolding find_from add64
find_from-some [] idx a b pos c from to small = absurd (omega (arith, c))
find_from-some (p ∷ ps) idx a b pos c from to small =
    let within = Covers-le _ _ ps c.2 in
    let same : p.offset ≡ a = c.0 in
    let fits : (p.offset + p.size) % u64_mod ≡ p.offset + p.size = omega arith in
    elim (Bool-cases (ltb pos (add64 p.offset p.size))) [
      | inl here ↦ (
        0,
        p,
        ps,
        ground arith,
        refl,
        (refl, c.1, rw same c.2),
        omega arith,
        ground arith,
        λ o n h. refl,
      )
      | inr later ↦
          let (k, q, qs, found, left, cov, lo, hi, bs) =
            find_from-some ps (idx + 1) (a + p.size) b pos c.2 (ground arith) to small in
          (
            suc k,
            q,
            qs,
            ground (arith, found),
            left,
            cov,
            lo,
            hi,
            λ o n h. bytes_from-past p ps n o (ground arith) ∙ bs o n h,
          )
    ]

drop-nil {ℓ} : {A : Type ℓ} (n : ℕ) → drop {A = A} n [] ≡ []
drop-nil zero = refl
drop-nil (suc n) = refl

pub drop-drop {ℓ} : {A : Type ℓ} (i k : ℕ) (xs : List A) → drop k (drop i xs) ≡ drop (i + k) xs
drop-drop zero k xs = let e : k ≡ 0 + k = omega arith in ap (λ n. drop n xs) e
drop-drop (suc i) k [] = drop-nil k ∙ sym (drop-nil (suc i + k))
drop-drop (suc i) k (x ∷ xs) =
    let e : suc (i + k) ≡ suc i + k = omega arith in drop-drop i k xs ∙ ap (λ n. drop n (x ∷ xs)) e

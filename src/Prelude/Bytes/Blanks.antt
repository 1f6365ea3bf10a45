-- ===== src/Prelude/Bytes/Blanks.antt =====
-- Texts cut at a byte, and rid of the blanks at their ends.
use mathlib.Core.List.{append_assoc}
use edge_observer.Prelude.Lists.{length, take, drop}
use edge_observer.Prelude.Tests.{◌==◌, Bool-cases}
use Prim.Native.Nat.{ℕ, zero, suc, ◌≤◌}
use mathlib.Core.Path.{◌≡◌, refl, sym, ap, ◌∙◌}
use mathlib.Core.Logic.{inl, inr}
use mathlib.Core.Bool.{Bool, true, false, not, ◌&&◌}
use mathlib.Core.Option.{some}
use mathlib.Core.List.{List, [], ◌∷◌, ◌++◌}
use native.Mathlib.Omega.{arith}
use edge_observer.Prelude.Bytes.{all_bytes, index_byte, is_blank, trim_left, trim_right, trim}

-- Where a byte is found, it stands.
pub index_byte-split :
    (xs : List ℕ) (c i : ℕ) → index_byte xs c ≡ some i → xs ≡ take i xs ++ c ∷ drop (suc i) xs
unfolding index_byte
index_byte-split [] c i e = cc
index_byte-split (x ∷ xs) c zero e = ground (arith, index_byte-split xs c)
index_byte-split (x ∷ xs) c (suc i) e = ground (arith, index_byte-split xs c i)

-- A byte is found behind a front that has none of it.
pub index_byte-append :
    (xs ys : List ℕ) (c : ℕ)
    → all_bytes (λ x. not (x == c)) xs ≡ true
    → index_byte (xs ++ c ∷ ys) c ≡ some (length xs)
unfolding index_byte all_bytes
index_byte-append [] ys c h = ground arith
index_byte-append (x ∷ xs) ys c h = ground (arith, index_byte-append xs ys c)

pub take-length-append : (xs ys : List ℕ) → take (length xs) (xs ++ ys) ≡ xs
take-length-append [] ys = refl
take-length-append (x ∷ xs) ys = ap (λ (t : List ℕ). x ∷ t) (take-length-append xs ys)

pub drop-length-append : (xs ys : List ℕ) (c : ℕ) → drop (suc (length xs)) (xs ++ c ∷ ys) ≡ ys
drop-length-append [] ys c = refl
drop-length-append (x ∷ xs) ys c = drop-length-append xs ys c

abbrev pub are_blank : List ℕ → Bool
unfolding all_bytes
are_blank xs = all_bytes is_blank xs

trim_left-split :
    (xs : List ℕ) → (lead : List ℕ) × (are_blank lead ≡ true) × (xs ≡ lead ++ trim_left xs)
unfolding trim_left all_bytes
trim_left-split [] = ([], refl, refl)
trim_left-split (c ∷ cs) =
    let (lead, b, e) = trim_left-split cs in
    elim (Bool-cases (is_blank c)) [
      | inl blank ↦ (c ∷ lead, ground arith, ground arith)
      | inr other ↦ ([], refl, ground arith)
    ]

abbrev is_empty : List ℕ → Bool
is_empty [] = true
is_empty _ = false

trim_right-split :
    (xs : List ℕ) → (trail : List ℕ) × (are_blank trail ≡ true) × (xs ≡ trim_right xs ++ trail)
unfolding trim_right all_bytes
trim_right-split [] = ([], refl, refl)
trim_right-split (c ∷ cs) =
    let (trail, b, e) = trim_right-split cs in
    elim (Bool-cases (is_empty (trim_right cs) && is_blank c)) [
      | inl blank ↦ (c ∷ trail, ground arith, ground arith)
      | inr other ↦ (trail, b, ground arith)
    ]

trim_left-append_blank :
    (lead ys : List ℕ) → are_blank lead ≡ true → trim_left (lead ++ ys) ≡ trim_left ys
unfolding trim_left all_bytes
trim_left-append_blank [] ys h = refl
trim_left-append_blank (c ∷ cs) ys h = ground (arith, trim_left-append_blank cs ys)

length-trim_left : (xs : List ℕ) → length (trim_left xs) ≤ length xs
unfolding trim_left
length-trim_left [] = omega arith
length-trim_left (c ∷ cs) = ground (arith, length-trim_left cs)

trim_left-append :
    (c : ℕ) (cs ys : List ℕ) → trim_left (c ∷ cs) ≡ c ∷ cs → trim_left (c ∷ cs ++ ys) ≡ c ∷ cs ++ ys
unfolding trim_left
trim_left-append c cs ys h = ground (arith, length-trim_left cs, ap (λ (t : List ℕ). length t) h)

trim_left_blank : (trail : List ℕ) → are_blank trail ≡ true → trim_left trail ≡ []
unfolding trim_left all_bytes
trim_left_blank [] h = refl
trim_left_blank (c ∷ cs) h = ground (arith, trim_left_blank cs)

trim_right_blank : (trail : List ℕ) → are_blank trail ≡ true → trim_right trail ≡ []
unfolding trim_right all_bytes
trim_right_blank [] h = refl
trim_right_blank (c ∷ cs) h = ground (arith, trim_right_blank cs)

trim_right-append_blank :
    (xs trail : List ℕ) → are_blank trail ≡ true → trim_right (xs ++ trail) ≡ trim_right xs
unfolding trim_right all_bytes
trim_right-append_blank [] trail h = trim_right_blank trail h
trim_right-append_blank (x ∷ xs) trail h = ground (arith, trim_right-append_blank xs trail)

trim_left_again : (xs : List ℕ) → trim_left (trim_left xs) ≡ trim_left xs
unfolding trim_left
trim_left_again [] = refl
trim_left_again (c ∷ cs) = ground (arith, trim_left_again cs)

trim_right_again : (xs : List ℕ) → trim_right (trim_right xs) ≡ trim_right xs
unfolding trim_right
trim_right_again [] = refl
trim_right_again (c ∷ cs) = ground (arith, trim_right_again cs)

trim_left-trim_right : (xs : List ℕ) → trim_left xs ≡ xs → trim_left (trim_right xs) ≡ trim_right xs
unfolding trim_left trim_right
trim_left-trim_right [] h = refl
trim_left-trim_right (c ∷ cs) h =
    ground (arith, length-trim_left cs, ap (λ (t : List ℕ). length t) h)

-- What `trim` leaves has no blank at an end, and what it took is blank.
pub trim-split :
    (xs : List ℕ)
    → (lead trail : List ℕ) × (are_blank lead ≡ true)
      × (are_blank trail ≡ true)
      × (xs ≡ lead ++ trim xs ++ trail)
      × (trim_left (trim xs) ≡ trim xs)
      × (trim_right (trim xs) ≡ trim xs)
unfolding trim
trim-split xs =
    let (lead, b, e) = trim_left-split xs in
    let (trail, d, f) = trim_right-split (trim_left xs) in
    (
      lead,
      trail,
      b,
      d,
      e ∙ ap (λ (t : List ℕ). lead ++ t) f ∙ sym (append_assoc lead _ trail),
      trim_left-trim_right (trim_left xs) (trim_left_again xs),
      trim_right_again (trim_left xs),
    )

-- A text with no blank at an end is what `trim` leaves of it between blanks.
pub trim-append :
    (lead v trail : List ℕ)
    → are_blank lead ≡ true
    → are_blank trail ≡ true
    → trim_left v ≡ v
    → trim_right v ≡ v
    → trim (lead ++ v ++ trail) ≡ v
unfolding trim
trim-append lead [] trail b d l r = ap trim_right (
    ap trim_left (append_assoc lead [] trail)
    ∙ trim_left-append_blank lead trail b
    ∙ trim_left_blank trail d)
trim-append lead (c ∷ cs) trail b d l r =
    ap trim_right (
      ap trim_left (append_assoc lead (c ∷ cs) trail)
      ∙ trim_left-append_blank lead (c ∷ cs ++ trail) b
      ∙ trim_left-append c cs trail l)
    ∙ trim_right-append_blank (c ∷ cs) trail d
    ∙ r

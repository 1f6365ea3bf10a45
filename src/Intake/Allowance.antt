-- ===== src/Intake/Allowance.antt =====
-- intake/intake.go, `allowance`: what an insertion is charged, taken step by step from what is left.
-- `unsafe.Sizeof` of each struct is a parameter. Of a connection record the charge reads lengths
-- alone, and `Shape` has those. Counts and sizes are multiplied as uint64.
use native.Mathlib.Nat.{le-div_iff_mul-le}
use edge_observer.Prelude.{
  ℕ, ◌+◌, ◌-◌, ◌*◌, ◌/◌, ◌%◌, ◌<◌, ◌≡◌, List, [], ◌∷◌, Option, none, some, ltb, leb, if◌then◌else◌,
  u64_mod, arith,
}

-- `unsafe.Sizeof` of each struct that is charged.
pub record Sizes : Type 0 where
  pub entry : ℕ
  pub fragment : ℕ
  pub connection : ℕ
  pub association : ℕ
  pub placement : ℕ
  pub early : ℕ
  pub descriptor : ℕ

-- The lengths of one association: its contended descriptors and the zones of its endpoints.
pub record AssociationShape : Type 0 where
  pub contended : ℕ
  pub local_zone : ℕ
  pub remote_zone : ℕ

-- The lengths of a connection record; `lost_whys` has one for each placement.
pub record Shape : Type 0 where
  pub executable : ℕ
  pub why : ℕ
  pub associations : List AssociationShape
  pub lost_whys : List ℕ
  pub early : ℕ

-- `allowance.add`: what is left, or `none` where it does not fit.
unfoldable pub add : ℕ → ℕ → ℕ → Option ℕ
add count size left =
    if ltb (left / size) count
    then none
    else some (left - (count * size) % 18_446_744_073_709_551_616)

infixl 5 ◌>>=◌
abbrev ◌>>=◌ : Option ℕ → (ℕ → Option ℕ) → Option ℕ
none >>= f = none
some n >>= f = f n

abbrev count_of {ℓ} : {A : Type ℓ} → List A → ℕ
count_of [] = 0
count_of (x ∷ xs) = 1 + count_of xs

-- The check at the head of `Write`.
unfoldable pub fragment_charge : Sizes → ℕ → ℕ → Option ℕ
unfolding add
fragment_charge z n left = do a ← add 1 (z.entry + z.fragment) left; add n 1 a

add_associations : Sizes → List AssociationShape → ℕ → Option ℕ
add_associations z [] left = some left
add_associations z (one ∷ rest) left = do
  a ← add one.contended z.descriptor left
  b ← add one.local_zone 1 a
  c ← add one.remote_zone 1 b
  add_associations z rest c

add_whys : List ℕ → ℕ → Option ℕ
add_whys [] left = some left
add_whys (n ∷ rest) left = do a ← add n 1 left; add_whys rest a

-- `allowance.connection`.
pub connection_charge : Sizes → Shape → ℕ → Option ℕ
connection_charge z r left = do
  a ← add 1 (z.entry + z.connection) left
  b ← add r.executable 1 a
  c ← add r.why 1 b
  d ← add (count_of r.associations) z.association c
  e ← add (count_of r.lost_whys) z.placement d
  f ← add r.early z.early e
  g ← add_associations z r.associations f
  add_whys r.lost_whys g

-- Every struct takes some bytes, as unsafe.Sizeof of a struct with fields does.
pub record IsSized (z : Sizes) : Type 0 where
  pub entry_pos : 0 < z.entry
  pub association_pos : 0 < z.association
  pub placement_pos : 0 < z.placement
  pub early_pos : 0 < z.early
  pub descriptor_pos : 0 < z.descriptor

-- A charge taken off at once.
abbrev pub take_off : ℕ → ℕ → Option ℕ
take_off charge left = if leb charge left then some (left - charge) else none

add-take_off :
    (count size left : ℕ)
    → 0 < size
    → left < u64_mod
    → add count size left ≡ take_off (count * size) left
unfolding add
add-take_off count size left h k = ground (
  arith,
  (le-div_iff_mul-le {k = size} {x = count} {y = left} h).0,
  (le-div_iff_mul-le {k = size} {x = count} {y = left} h).1,
)

-- `f` takes the charge `y` off whatever is left.
abbrev pub Takes : (ℕ → Option ℕ) → ℕ → Type 0
Takes f y = (left : ℕ) → left < u64_mod → f left ≡ take_off y left

add-Takes :
    (count size : ℕ) (f : ℕ → Option ℕ) (y : ℕ)
    → 0 < size
    → Takes f y
    → Takes (λ left. add count size left >>= f) (count * size + y)
add-Takes count size f y h t left k =
    rw (add-take_off count size left h k) (ground (arith, t (left - count * size)))

associations_charge : Sizes → List AssociationShape → ℕ
associations_charge z [] = 0
associations_charge z (one ∷ rest) =
    one.contended * z.descriptor
    + (one.local_zone * 1 + (one.remote_zone * 1 + associations_charge z rest))

whys_charge : List ℕ → ℕ
whys_charge [] = 0
whys_charge (n ∷ rest) = n * 1 + whys_charge rest

add_whys-Takes : (whys : List ℕ) → Takes (add_whys whys) (whys_charge whys)
unfolding add_whys whys_charge
add_whys-Takes [] left k = ground arith
add_whys-Takes (n ∷ rest) left k =
    add-Takes n 1 (add_whys rest) (whys_charge rest) (omega arith) (add_whys-Takes rest) left k

add_associations-Takes :
    (z : Sizes) (rs : List AssociationShape)
    → IsSized z
    → Takes (add_associations z rs) (associations_charge z rs)
unfolding add_associations associations_charge
add_associations-Takes z [] v left k = ground arith
add_associations-Takes z (one ∷ rest) v left k =
    add-Takes one.contended z.descriptor _ _ v.descriptor_pos
      (add-Takes one.local_zone 1 _ _ (omega arith)
        (add-Takes one.remote_zone 1 _ _ (omega arith) (add_associations-Takes z rest v)))
      left k

-- Two charges one after the other.
then-Takes :
    (f g : ℕ → Option ℕ) (x y : ℕ) → Takes f x → Takes g y → Takes (λ left. f left >>= g) (x + y)
then-Takes f g x y t u left k = rw (t left k) (ground (arith, u (left - x)))

-- All the accounted bytes of an entry that holds a connection record of this shape.
pub connection_total : Sizes → Shape → ℕ
unfolding associations_charge whys_charge
connection_total z r =
    1 * (z.entry + z.connection)
    + (r.executable * 1
        + (r.why * 1
            + (count_of r.associations * z.association
                + (count_of r.lost_whys * z.placement
                    + (r.early * z.early
                        + (associations_charge z r.associations + whys_charge r.lost_whys))))))

-- With sizes that are not zero, a connection record is charged step by step exactly as all its
-- accounted bytes are at once: it is refused where they are more than is left, and else they are
-- taken off; no product of a count and a size wraps on the way.
pub connection_charge-take_off :
    (z : Sizes) (r : Shape) (left : ℕ)
    → IsSized z
    → left < u64_mod
    → connection_charge z r left ≡ take_off (connection_total z r) left
unfolding connection_charge connection_total
connection_charge-take_off z r left v =
    add-Takes 1 (z.entry + z.connection) _ _ (omega arith)
      (add-Takes r.executable 1 _ _ (omega arith) (
        add-Takes r.why 1 _ _ (omega arith) (
          add-Takes (count_of r.associations) z.association _ _ v.association_pos (
            add-Takes (count_of r.lost_whys) z.placement _ _ v.placement_pos (
              add-Takes r.early z.early _ _ v.early_pos (
                then-Takes _ _ _ _ (add_associations-Takes z r.associations v)
                  (add_whys-Takes r.lost_whys)))))))
      left

-- All the accounted bytes of an entry that holds a fragment with a payload of `n` bytes.
pub fragment_total : Sizes → ℕ → ℕ
fragment_total z n = 1 * (z.entry + z.fragment) + n * 1

pub fragment_charge-take_off :
    (z : Sizes) (n left : ℕ)
    → IsSized z
    → left < u64_mod
    → fragment_charge z n left ≡ take_off (fragment_total z n) left
unfolding fragment_charge fragment_total
fragment_charge-take_off z n left v k =
    add-Takes 1 (z.entry + z.fragment) (add n 1) (n * 1) (omega arith)
      (λ l h. add-take_off n 1 l (omega arith) h) left k

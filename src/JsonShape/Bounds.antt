-- ===== src/JsonShape/Bounds.antt =====
-- jsonshape/jsonshape.go: a shape stays within the limits.
pub mod Loops
pub mod Arrays
use edge_observer.Prelude.{
  ℕ, zero, suc, ◌+◌, ◌-◌, ◌≤◌, ◌<◌, ◌≡◌, refl, Bool, true, false, List, [], arith, length, max,
}
use edge_observer.JsonShape.Kinds.{
  Kind, Shape, Fields, Shapes, shape, no_fields, field, no_shapes, a_shape, add_field, add_shape,
  length_fields, length_shapes, Limits, leaf, elided_in,
}

-- How many shapes one holds, itself counted.
unfoldable mutual
  pub size : Shape → ℕ
  size (shape k fs ss n b) = suc (size_fields fs + size_shapes ss)

  pub size_fields : Fields → ℕ
  size_fields no_fields = 0
  size_fields (field name b s fs) = size s + size_fields fs

  pub size_shapes : Shapes → ℕ
  size_shapes no_shapes = 0
  size_shapes (a_shape s ss) = size s + size_shapes ss

-- How deep it is.
unfoldable mutual
  pub depth_of : Shape → ℕ
  depth_of (shape k fs ss n b) = suc (max (depth_fields fs) (depth_shapes ss))

  pub depth_fields : Fields → ℕ
  depth_fields no_fields = 0
  depth_fields (field name b s fs) = max (depth_of s) (depth_fields fs)

  pub depth_shapes : Shapes → ℕ
  depth_shapes no_shapes = 0
  depth_shapes (a_shape s ss) = max (depth_of s) (depth_shapes ss)

-- Each object in it holds no more members, each array no more shapes, and each name no more bytes
-- than the limits say.
unfoldable mutual
  pub InLimits : Limits → Shape → Type 0
  InLimits l (shape k fs ss n b) =
      (length_fields fs ≤ l.max_fields)
      × (length_shapes ss ≤ l.max_elem_shapes)
      × FieldsIn l fs
      × ShapesIn l ss

  pub FieldsIn : Limits → Fields → Type 0
  FieldsIn l no_fields = Unit {0}
  FieldsIn l (field name b s fs) = (length name ≤ l.max_name_bytes) × InLimits l s × FieldsIn l fs

  pub ShapesIn : Limits → Shapes → Type 0
  ShapesIn l no_shapes = Unit {0}
  ShapesIn l (a_shape s ss) = InLimits l s × ShapesIn l ss

pub length_fields-add :
    (fs : Fields) (name : List ℕ) (b : Bool) (s : Shape)
    → length_fields (add_field fs name b s) ≡ length_fields fs + 1
unfolding length_fields add_field
length_fields-add no_fields name b s = omega arith
length_fields-add (field n c t fs) name b s = omega (arith, length_fields-add fs name b s)

pub size_fields-add :
    (fs : Fields) (name : List ℕ) (b : Bool) (s : Shape)
    → size_fields (add_field fs name b s) ≡ size_fields fs + size s
unfolding size add_field
size_fields-add no_fields name b s = omega arith
size_fields-add (field n c t fs) name b s = omega (arith, size_fields-add fs name b s)

pub depth_fields-add :
    (fs : Fields) (name : List ℕ) (b : Bool) (s : Shape)
    → depth_fields (add_field fs name b s) ≡ max (depth_fields fs) (depth_of s)
unfolding depth_of add_field
depth_fields-add no_fields name b s = omega arith
depth_fields-add (field n c t fs) name b s = omega (arith, depth_fields-add fs name b s)

pub FieldsIn-add :
    (l : Limits) (fs : Fields) (name : List ℕ) (b : Bool) (s : Shape)
    → FieldsIn l fs
    → length name ≤ l.max_name_bytes
    → InLimits l s
    → FieldsIn l (add_field fs name b s)
unfolding InLimits add_field
FieldsIn-add l no_fields name b s h n i = (n, i, tt)
FieldsIn-add l (field m c t fs) name b s (p, q, r) n i = (p, q, FieldsIn-add l fs name b s r n i)

pub length_shapes-add :
    (ss : Shapes) (s : Shape) → length_shapes (add_shape ss s) ≡ length_shapes ss + 1
unfolding length_shapes add_shape
length_shapes-add no_shapes s = omega arith
length_shapes-add (a_shape t ss) s = omega (arith, length_shapes-add ss s)

pub size_shapes-add :
    (ss : Shapes) (s : Shape) → size_shapes (add_shape ss s) ≡ size_shapes ss + size s
unfolding size add_shape
size_shapes-add no_shapes s = omega arith
size_shapes-add (a_shape t ss) s = omega (arith, size_shapes-add ss s)

pub depth_shapes-add :
    (ss : Shapes) (s : Shape) → depth_shapes (add_shape ss s) ≡ max (depth_shapes ss) (depth_of s)
unfolding depth_of add_shape
depth_shapes-add no_shapes s = omega arith
depth_shapes-add (a_shape t ss) s = omega (arith, depth_shapes-add ss s)

pub ShapesIn-add :
    (l : Limits) (ss : Shapes) (s : Shape)
    → ShapesIn l ss
    → InLimits l s
    → ShapesIn l (add_shape ss s)
unfolding InLimits add_shape
ShapesIn-add l no_shapes s h i = (i, tt)
ShapesIn-add l (a_shape t ss) s (p, q) i = (p, ShapesIn-add l ss s q i)

-- The mark changes none of it.
pub elided_in_lem :
    (l : Limits) (b : Bool) (s : Shape)
    → (size (elided_in b s) ≡ size s)
      × (depth_of (elided_in b s) ≡ depth_of s)
      × (InLimits l s → InLimits l (elided_in b s))
unfolding size depth_of InLimits
elided_in_lem l b (shape k fs ss n c) = (refl, refl, λ h. h)

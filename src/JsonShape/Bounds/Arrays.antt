-- ===== src/JsonShape/Bounds/Arrays.antt =====
-- jsonshape/jsonshape.go: what the extractor holds of an array, and of any value.
use edge_observer.Prelude.{
  ℕ, zero, suc, ◌+◌, ◌-◌, ◌≤◌, ◌<◌, ◌≡◌, refl, Bool, true, false, not, arith, ltb, Bool-cases, inl,
  inr,
}
use edge_observer.JsonShape.Kinds.{
  Shape, Shapes, shape, array, no_fields, no_shapes, length_fields, length_shapes, Limits,
  or_defaults, leaf, elided_in, Kind,
}
use edge_observer.JsonShape.{
  Token, is_end, text, Decoder, Extractor, Read, refused, read, Call, behind, place_shape,
  array_extractor, array_shapes, keeps_element, array_loop, value_of, value, extract, open_object,
  open_array, number, truth, nothing, unknown_token, other_delim, end_of_input, failed, Placed,
  dropped, known_shape, too_many, appended,
}
use edge_observer.JsonShape.Bounds.{
  size, size_shapes, depth_of, depth_shapes, InLimits, ShapesIn, length_shapes-add, size_shapes-add,
  depth_shapes-add, ShapesIn-add, elided_in_lem,
}
use edge_observer.JsonShape.Bounds.Loops.{
  Sat, Sat-bind, Sat-if, Sat-end, Fits, CallFits, object_loop-Sat,
}

module _ {D : Type 0} (json : Decoder D) (l : Limits) where
  -- The shapes of an array at this depth, begun at so many nodes.
  record Elements (depth nodes : ℕ) (e : Extractor D) (ss : Shapes) : Type 0 where
    inside : ShapesIn l ss
    few : length_shapes ss ≤ l.max_elem_shapes
    shallow : depth_shapes ss + depth ≤ l.max_depth
    counted : size_shapes ss + nodes + 1 ≤ e.nodes
    small : size_shapes ss ≤ l.max_nodes - (nodes + 1)

  array-Fits :
      (depth nodes count : ℕ) (e e' : Extractor D) (ss : Shapes) (b : Bool)
      → e'.nodes ≡ e.nodes
      → Elements depth nodes e ss
      → Fits json l depth nodes (e', shape array no_fields ss count b)
  unfolding size depth_of InLimits length_fields
  array-Fits depth nodes count e e' ss b s m = record {
    inside = (omega arith, m.few, tt, m.inside);
    shallow = omega (arith, m.shallow);
    counted = omega (arith, m.counted);
    small = omega (arith, m.small);
  }

  element_room :
      (hold : Bool) (e : Extractor D) (ss : Shapes) (s : Shape)
      → place_shape json l (keeps_element json l hold e) ss s ≡ appended
      → (length_shapes ss < l.max_elem_shapes) × (e.nodes < l.max_nodes)
  unfolding place_shape
  element_room hold e ss s h = ground arith

  same-Elements :
      (depth nodes : ℕ) (e : Extractor D) (ss : Shapes) (r : Extractor D × Shape) (e' : Extractor D)
      → e'.nodes ≡ r.0.nodes
      → Elements depth nodes e ss
      → Fits json l (depth + 1) e.nodes r
      → Elements depth nodes e' ss
  same-Elements depth nodes e ss r e' s m f = record {
    inside = m.inside;
    few = m.few;
    shallow = m.shallow;
    counted = omega (arith, m.counted, f.counted);
    small = m.small;
  }

  -- The array with one more element, in each of the four ways.
  more-Elements :
      (depth nodes : ℕ) (hold : Bool) (e : Extractor D) (ss : Shapes) (r : Extractor D × Shape)
      (p : Placed)
      → place_shape json l (keeps_element json l hold e) ss r.1 ≡ p
      → Elements depth nodes e ss
      → Fits json l (depth + 1) e.nodes r
      → Elements depth nodes (array_extractor json l p r.0) (array_shapes json l p ss r.1)
  more-Elements depth nodes hold e ss r dropped k m f = same-Elements depth nodes e ss r _ refl m f
  more-Elements depth nodes hold e ss r known_shape k m f =
      same-Elements depth nodes e ss r _ refl m f
  more-Elements depth nodes hold e ss r too_many k m f = same-Elements depth nodes e ss r _ refl m f
  more-Elements depth nodes hold e ss r appended k m f =
      let (lt, room) = element_room hold e ss r.1 k in
      record {
        inside = ShapesIn-add l ss r.1 m.inside f.inside;
        few = omega (arith, length_shapes-add ss r.1);
        shallow = omega (arith, depth_shapes-add ss r.1, m.shallow, f.shallow);
        counted = omega (arith, size_shapes-add ss r.1, m.counted, f.counted);
        small = omega (arith, size_shapes-add ss r.1, m.counted, f.small);
      }

  array_loop-Sat :
      (call : Call json l) (fuel depth nodes : ℕ) (hold : Bool) (e : Extractor D) (ss : Shapes)
      (count : ℕ) (elided : Bool)
      → CallFits json l call
      → Elements depth nodes e ss
      → Sat (Fits json l depth nodes) (array_loop json l call fuel depth hold e ss count elided)
  unfolding array_loop
  array_loop-Sat call zero depth nodes hold e ss count elided c m = tt
  array_loop-Sat call (suc fuel) depth nodes hold e ss count elided c m =
      Sat-if (Fits json l depth nodes) (not (json.more e.decoder)) _ _
        (Sat-end json l depth nodes (json.token e.decoder).1 _
          (array-Fits depth nodes count e (behind json l e) ss elided refl m))
        (Sat-bind (Fits json l (depth + 1) e.nodes) (Fits json l depth nodes) _ _
          (c (depth + 1) (keeps_element json l hold e) e)
          (λ r f.
            array_loop-Sat call fuel depth nodes hold _ _ _ _ c
              (more-Elements depth nodes hold e ss r _ refl m f)))

  leaf-Fits :
      (depth nodes : ℕ) (e : Extractor D) (k : Kind)
      → depth ≤ l.max_depth
      → e.nodes ≡ nodes + 1
      → Fits json l depth nodes (e, leaf k)
  unfolding size depth_of InLimits length_fields length_shapes
  leaf-Fits depth nodes e k h n = record {
    inside = (omega arith, omega arith, tt, tt);
    shallow = omega arith;
    counted = omega arith;
    small = omega arith;
  }

  value_of-Sat :
      (call : Call json l) (fuel depth nodes : ℕ) (hold : Bool) (e : Extractor D) (t : Token)
      → CallFits json l call
      → depth ≤ l.max_depth
      → e.nodes ≡ nodes + 1
      → Sat (Fits json l depth nodes) (value_of json l call fuel depth hold e t)
  unfolding value_of size depth_of InLimits length_fields length_shapes
  value_of-Sat call fuel depth nodes hold e open_object c h n =
      object_loop-Sat json l call fuel depth nodes hold e no_fields false c (record {
        inside = tt;
        few = omega arith;
        shallow = omega arith;
        counted = omega arith;
        small = omega arith;
      })
  value_of-Sat call fuel depth nodes hold e open_array c h n =
      array_loop-Sat call fuel depth nodes hold e no_shapes 0 false c (record {
        inside = tt;
        few = omega arith;
        shallow = omega arith;
        counted = omega arith;
        small = omega arith;
      })
  value_of-Sat call fuel depth nodes hold e other_delim c h n = tt
  value_of-Sat call fuel depth nodes hold e (text s) c h n = leaf-Fits depth nodes e _ h n
  value_of-Sat call fuel depth nodes hold e (number s) c h n = leaf-Fits depth nodes e _ h n
  value_of-Sat call fuel depth nodes hold e truth c h n = leaf-Fits depth nodes e _ h n
  value_of-Sat call fuel depth nodes hold e nothing c h n = leaf-Fits depth nodes e _ h n
  value_of-Sat call fuel depth nodes hold e unknown_token c h n = tt
  value_of-Sat call fuel depth nodes hold e end_of_input c h n = tt
  value_of-Sat call fuel depth nodes hold e failed c h n = tt

  value-Fits : (fuel : ℕ) → CallFits json l (value json l fuel)
  unfolding value
  value-Fits zero depth hold e = tt
  value-Fits (suc fuel) depth hold e = elim (Bool-cases (ltb l.max_depth depth)) [
    | inl deep ↦ rw deep tt
    | inr b ↦ rw b (
        value_of-Sat (value json l fuel) fuel depth e.nodes hold
          (record (behind json l e) { nodes = e.nodes + 1 }) (json.token e.decoder).1
          (value-Fits fuel) (ground arith) refl)
  ]

or_defaults_positive : (l : Limits) → 0 < (or_defaults l).max_nodes
unfolding or_defaults
or_defaults_positive l = ground arith

-- A shape within limits, also of depth and of size in all.
abbrev pub IsWithin : Limits → Shape → Type 0
IsWithin l s = InLimits l s × (depth_of s ≤ l.max_depth) × (size s ≤ l.max_nodes)

IsWithin-root :
    {D : Type 0} (json : Decoder D) (l : Limits) (r : Extractor D × Shape)
    → 0 < l.max_nodes
    → Fits json l 1 0 r
    → IsWithin l (elided_in r.0.elided r.1)
IsWithin-root json l r h f =
    let (same_size, same_depth, inside) = elided_in_lem l r.0.elided r.1 in
    (inside f.inside, omega (arith, same_depth, f.shallow), omega (arith, same_size, f.small))

Sat-read : {A : Type 0} (P : A → Type 0) (r : Read A) (a : A) → Sat P r → r ≡ read a → P a
Sat-read P r a p e = rw e at p

-- What the extractor reads of a body is within the limits, or the defaults where these are zero: no
-- object in the shape has more members, no array more shapes and no name more bytes than they say, and
-- the shape is no deeper and holds no more shapes in all.
pub extract-IsWithin :
    {D : Type 0} (json : Decoder D) (limits : Limits) (d : D) (s : Shape)
    → extract json limits d ≡ read s
    → IsWithin (or_defaults limits) s
unfolding extract
extract-IsWithin json limits d s h =
    let l = or_defaults limits in
    Sat-read (IsWithin l) _ s
      (Sat-bind (Fits json l 1 0) (IsWithin l) _ _
        (value-Fits json l (json.left d + 1) 1 true
          (record { decoder = d; nodes = 0; elided = false }))
        (λ r f.
          Sat-if (IsWithin l) (is_end (json.token r.0.decoder).1) (read (elided_in r.0.elided r.1))
            refused (IsWithin-root json l r (or_defaults_positive limits) f) tt))
      h

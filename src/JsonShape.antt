-- ===== src/JsonShape.antt =====
-- jsonshape/jsonshape.go: the shape of one JSON value. The decoder, encoding/json's, is a parameter:
-- what `Token` and `More` answer in a state of its own. A token that is an error carries nothing.
-- Texts are lists of bytes. A value calls the values in it, and the loops over an object and an array
-- run, on fuel; one more than the tokens left in the decoder is enough.
pub mod Kinds
pub mod Render
pub mod Bounds
pub mod Total
mod Tests
use edge_observer.Prelude.{
  ℕ, zero, suc, ◌+◌, ◌<◌, ◌≡◌, Bool, true, false, not, ◌&&◌, ◌||◌, List, [], ◌==◌, ltb, leb,
  if◌then◌else◌, length,
}
use Kinds.{
  Kind, object, array, integer, fraction, boolean, null, Shape, Fields, Shapes, shape, no_fields,
  field, no_shapes, a_shape, add_field, add_shape, length_fields, length_shapes, Limits,
  or_defaults, string_kind, number_kind, elided_in, leaf,
}
use Render.{held}

-- What `Token` returns.
pub data Token : Type 0 where
  open_object open_array other_delim : Token
  text number : List ℕ → Token
  truth nothing unknown_token : Token
  end_of_input failed : Token

abbrev pub is_error : Token → Bool
is_error end_of_input = true
is_error failed = true
is_error _ = false

abbrev pub is_end : Token → Bool
is_end end_of_input = true
is_end _ = false

-- `json.Decoder`, with the tokens that it has left: one fewer behind each that is no error.
pub record Decoder (D : Type 0) : Type 0 where
  pub token : D → D × Token
  pub more : D → Bool
  pub left : D → ℕ
  pub reads : (d : D) → is_error (token d).1 ≡ false → left (token d).0 < left d

-- `extractor`, less its limits.
pub record Extractor (D : Type 0) : Type 0 where
  pub decoder : D
  pub nodes : ℕ
  pub elided : Bool

-- What a read returns; `stuck` where the fuel runs out.
pub data Read (A : Type 0) : Type 0 where
  stuck refused : Read A
  read : A → Read A

infixl 5 ◌>>=◌
abbrev pub ◌>>=◌ : {A B : Type 0} → Read A → (A → Read B) → Read B
stuck >>= k = stuck
refused >>= k = refused
read a >>= k = k a

-- The name of a member.
abbrev pub member_name : Token → Read (List ℕ)
member_name (text name) = read name
member_name _ = refused

-- What an array does with its next element.
pub data Placed : Type 0 where
  dropped known_shape too_many appended : Placed

module _ {D : Type 0} (json : Decoder D) (l : Limits) where
  -- The call of `value` in the loops, at a depth, holding its shape or not.
  abbrev pub Call : Type 0
  Call = ℕ → Bool → Extractor D → Read (Extractor D × Shape)

  -- The extractor behind a call of `Token`.
  abbrev pub behind : Extractor D → Extractor D
  behind e = record e { decoder = (json.token e.decoder).0 }

  abbrev pub kept_in : Bool → Extractor D → Extractor D
  kept_in keep e = if keep then e else record e { elided = true }

  -- Whether an object keeps its next member.
  abbrev pub keeps_field : Bool → Extractor D → Fields → Bool
  keeps_field hold e fs = hold && ltb (length_fields fs) l.max_fields && ltb e.nodes l.max_nodes

  abbrev pub with_field : List ℕ → Shape → Fields → Fields
  with_field name child fs =
      if ltb l.max_name_bytes (length name)
      then add_field fs [] true child
      else add_field fs name false child

  -- The end of an object.
  abbrev pub object_end : Token → Extractor D → Fields → Bool → Read (Extractor D × Shape)
  object_end t e fs elided =
      if is_error t then refused else read (e, shape object fs no_shapes 0 elided)

  -- `object`, from the members that it has.
  unfoldable pub object_loop :
      Call → ℕ → ℕ → Bool → Extractor D → Fields → Bool → Read (Extractor D × Shape)
  object_loop value zero depth hold e fs elided = stuck
  object_loop value (suc fuel) depth hold e fs elided =
      if not (json.more e.decoder)
      then object_end (json.token e.decoder).1 (behind e) fs elided
      else (member_name (json.token e.decoder).1 >>= λ name.
          value (depth + 1) (keeps_field hold e fs) (behind e) >>= λ r.
          object_loop value fuel depth hold (kept_in (keeps_field hold e fs) r.0)
            (if keeps_field hold e fs then with_field name r.1 fs else fs)
            (if keeps_field hold e fs then elided else true))

  unfoldable pub place_shape : Bool → Shapes → Shape → Placed
  place_shape keep ss child =
      if not keep
      then dropped
      else if held ss child
      then known_shape
      else if leb l.max_elem_shapes (length_shapes ss)
      then too_many
      else appended

  -- The extractor, the shapes and the mark behind that.
  abbrev pub array_extractor : Placed → Extractor D → Extractor D
  array_extractor dropped e = record e { elided = true }
  array_extractor too_many e = record e { elided = true }
  array_extractor _ e = e

  abbrev pub array_shapes : Placed → Shapes → Shape → Shapes
  array_shapes appended ss child = add_shape ss child
  array_shapes _ ss child = ss

  abbrev pub array_elided : Placed → Bool → Bool
  array_elided dropped elided = true
  array_elided too_many elided = true
  array_elided _ elided = elided

  abbrev pub keeps_element : Bool → Extractor D → Bool
  keeps_element hold e = hold && ltb e.nodes l.max_nodes

  abbrev pub array_end : Token → Extractor D → Shapes → ℕ → Bool → Read (Extractor D × Shape)
  array_end t e ss count elided =
      if is_error t then refused else read (e, shape array no_fields ss count elided)

  -- `array`, from the elements that it has.
  unfoldable pub array_loop :
      Call → ℕ → ℕ → Bool → Extractor D → Shapes → ℕ → Bool → Read (Extractor D × Shape)
  unfolding place_shape
  array_loop value zero depth hold e ss count elided = stuck
  array_loop value (suc fuel) depth hold e ss count elided =
      if not (json.more e.decoder)
      then array_end (json.token e.decoder).1 (behind e) ss count elided
      else (value (depth + 1) (keeps_element hold e) e >>= λ r.
          array_loop value fuel depth hold
            (array_extractor (place_shape (keeps_element hold e) ss r.1) r.0)
            (array_shapes (place_shape (keeps_element hold e) ss r.1) ss r.1) (count + 1)
            (array_elided (place_shape (keeps_element hold e) ss r.1) elided))

  -- The switch of `value`.
  unfoldable pub value_of : Call → ℕ → ℕ → Bool → Extractor D → Token → Read (Extractor D × Shape)
  unfolding object_loop array_loop string_kind number_kind
  value_of value fuel depth hold e open_object = object_loop value fuel depth hold e no_fields false
  value_of value fuel depth hold e open_array = array_loop value fuel depth hold e no_shapes 0 false
  value_of value fuel depth hold e other_delim = refused
  value_of value fuel depth hold e (text s) = read (e, leaf (string_kind l s))
  value_of value fuel depth hold e (number s) = read (e, leaf (number_kind s))
  value_of value fuel depth hold e truth = read (e, leaf boolean)
  value_of value fuel depth hold e nothing = read (e, leaf null)
  value_of value fuel depth hold e unknown_token = refused
  value_of value fuel depth hold e end_of_input = refused
  value_of value fuel depth hold e failed = refused

  -- `value`.
  unfoldable pub value : ℕ → Call
  unfolding value_of
  value zero depth hold e = stuck
  value (suc fuel) depth hold e =
      if ltb l.max_depth depth
      then refused
      else value_of (value fuel) fuel depth hold (record (behind e) { nodes = e.nodes + 1 })
          (json.token e.decoder).1

-- `Extract`, on a new decoder over the bytes.
unfoldable pub extract : {D : Type 0} → Decoder D → Limits → D → Read Shape
unfolding value or_defaults
extract json limits d =
    value json (or_defaults limits) (json.left d + 1) 1 true
      (record { decoder = d; nodes = 0; elided = false })
    >>= λ r. if is_end (json.token r.0.decoder).1 then read (elided_in r.0.elided r.1) else refused

-- ===== src/JsonShape/Tests.antt =====
-- The theorems on the extractor at concrete tokens, and what comparing by rendering does.
use edge_observer.Prelude.{
  ℕ, ◌<◌, ◌≡◌, ◌≢◌, refl, Bool, true, false, List, [], ◌∷◌, ◌++◌, arith, length,
}
use edge_observer.Prelude.Bytes.{codes}
use edge_observer.JsonShape.Kinds.{
  Shape, shape, object, array, integer, boolean, decimal_string, field, no_fields, a_shape,
  no_shapes, leaf, default_limits, or_defaults, add_field, add_shape, length_fields, length_shapes,
  string_kind, number_kind,
}
use edge_observer.JsonShape.Render.{held}
use edge_observer.JsonShape.{
  Token, is_error, open_object, open_array, other_delim, text, number, truth, end_of_input, Decoder,
  stuck, read, extract, value,
}
use edge_observer.JsonShape.Total.{extract_ends}
use edge_observer.JsonShape.Bounds.Arrays.{IsWithin, extract-IsWithin}

-- A decoder over tokens that are given.
abbrev next_token : List Token → List Token × Token
next_token [] = ([], end_of_input)
next_token (t ∷ ts) = (ts, t)

abbrev has_more : List Token → Bool
has_more [] = false
has_more (other_delim ∷ ts) = false
has_more (t ∷ ts) = true

next_token_lt :
    (ts : List Token) → is_error (next_token ts).1 ≡ false → length (next_token ts).0 < length ts
next_token_lt [] h = cc
next_token_lt (t ∷ ts) h = omega arith

abbrev over_list : Decoder (List Token)
over_list = record { token = next_token; more = has_more; left = length; reads = next_token_lt }

-- {"a": "12", "b": [true, true]}
abbrev two_members : List Token
two_members =
    open_object
    ∷ text (codes "a")
    ∷ text (codes "12")
    ∷ text (codes "b")
    ∷ open_array
    ∷ truth
    ∷ truth
    ∷ other_delim
    ∷ other_delim
    ∷ []

abbrev two_members_shape : Shape
two_members_shape =
    shape object
      (field (codes "a") false (leaf decimal_string) (
        field (codes "b") false (shape array no_fields (a_shape (leaf boolean) no_shapes) 2 false)
          no_fields))
      no_shapes 0 false

two_members_read : extract over_list default_limits two_members ≡ read two_members_shape
unfolding extract or_defaults value string_kind held add_field add_shape length_fields length_shapes
two_members_read = refl

extract_ends_example : extract over_list default_limits two_members ≢ stuck
extract_ends_example = extract_ends over_list default_limits two_members

extract-IsWithin_example : IsWithin (or_defaults default_limits) two_members_shape
extract-IsWithin_example =
    extract-IsWithin over_list default_limits two_members two_members_shape two_members_read

-- [{"a": 1, "b": 1}, {"a: integer\n  b": 1}]: the second element has a shape of its own, and the array
-- holds that of the first alone.
abbrev name_with_a_line : List ℕ
name_with_a_line = codes "a: integer" ++ (10 ∷ codes "  b")

abbrev two_objects : List Token
two_objects =
    open_array
    ∷ open_object
    ∷ text (codes "a")
    ∷ number (codes "1")
    ∷ text (codes "b")
    ∷ number (codes "1")
    ∷ other_delim
    ∷ open_object
    ∷ text name_with_a_line
    ∷ number (codes "1")
    ∷ other_delim
    ∷ other_delim
    ∷ []

one_shape_held :
    extract over_list default_limits two_objects
    ≡ read (
        shape array no_fields
          (a_shape
            (shape object
              (field
                (codes "a")
                false
                (leaf integer)
                (field (codes "b") false (leaf integer) no_fields))
              no_shapes
              0
              false)
            no_shapes)
          2
          false)
unfolding extract or_defaults value number_kind held add_field add_shape length_fields length_shapes
one_shape_held = refl

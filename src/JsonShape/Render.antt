-- ===== src/JsonShape/Render.antt =====
-- jsonshape/jsonshape.go: the rendering of a shape, by which two shapes are compared.
use edge_observer.Prelude.{
  ℕ, zero, suc, ◌+◌, ◌/◌, ◌%◌, Bool, true, false, ◌||◌, List, [], ◌∷◌, ◌++◌, ◌==◌, ltb,
  if◌then◌else◌,
}
use edge_observer.Prelude.Bytes.{codes, same_bytes}
use edge_observer.JsonShape.Kinds.{
  Kind, invalid, object, array, integer, fraction, boolean, null, short_string, long_string,
  decimal_string, Shape, Fields, Shapes, shape, no_fields, field, no_shapes, a_shape,
}

-- `Kind.String`.
abbrev pub kind_text : Kind → List ℕ
kind_text object = codes "object"
kind_text array = codes "array"
kind_text integer = codes "integer"
kind_text fraction = codes "fraction"
kind_text boolean = codes "boolean"
kind_text null = codes "null"
kind_text short_string = codes "short string"
kind_text long_string = codes "long string"
kind_text decimal_string = codes "decimal string"
kind_text invalid = codes "invalid"

-- `%d`; a number has no more digits than it has units, and one.
unfoldable pub decimal_digits : ℕ → ℕ → List ℕ
decimal_digits zero n = []
decimal_digits (suc fuel) n =
    let rest = decimal_digits fuel (n / 10) in
    if ltb n 10 then (48 + n) ∷ [] else rest ++ ((48 + n % 10) ∷ [])

abbrev pub decimal : ℕ → List ℕ
decimal n = decimal_digits (suc n) n

abbrev pub is_array : Kind → Bool
is_array array = true
is_array _ = false

-- The head of `write`.
unfoldable pub head : Kind → ℕ → Bool → List ℕ
unfolding decimal_digits
head k count elided =
    (if is_array k then codes "array of " ++ decimal count else kind_text k)
    ++ (if elided then codes " (elided)" else [])

-- `write`. The lists of a kind that has none are empty.
unfoldable mutual
  unfolding head

  pub write : List ℕ → List ℕ → Shape → List ℕ
  write indent label (shape k fs ss count elided) =
      indent
      ++ (label
          ++ (head k count elided
              ++ (10
                  ∷ (write_fields (indent ++ codes "  ") fs
                      ++ write_shapes (indent ++ codes "  ") ss))))

  pub write_fields : List ℕ → Fields → List ℕ
  write_fields indent no_fields = []
  write_fields indent (field name elided s fs) =
      write indent ((if elided then codes "(elided)" else name) ++ codes ": ") s
      ++ write_fields indent fs

  pub write_shapes : List ℕ → Shapes → List ℕ
  write_shapes indent no_shapes = []
  write_shapes indent (a_shape s ss) = write indent [] s ++ write_shapes indent ss

-- `strings.TrimRight` with a newline.
unfoldable pub trim_newlines : List ℕ → List ℕ
trim_newlines [] = []
trim_newlines (c ∷ cs) = elim (trim_newlines cs) [
  | [] ↦ if c == 10 then [] else c ∷ []
  | d ∷ ds ↦ c ∷ d ∷ ds
]

-- `Shape.String`.
unfoldable pub render : Shape → List ℕ
unfolding write trim_newlines
render s = trim_newlines (write [] [] s)

-- `held`.
unfoldable pub held : Shapes → Shape → Bool
unfolding render same_bytes
held no_shapes want = false
held (a_shape s ss) want = same_bytes (render s) (render want) || held ss want

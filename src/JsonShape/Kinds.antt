-- ===== src/JsonShape/Kinds.antt =====
-- jsonshape/jsonshape.go: shapes, the limits on them, and the kind that a text or a number has.
use edge_observer.Prelude.{
  ℕ, suc, Bool, true, false, not, ◌&&◌, ◌||◌, List, [], ◌∷◌, ◌==◌, leb, if◌then◌else◌, length,
}
use edge_observer.Prelude.Bytes.{is_digit}

-- `Kind`.
pub data Kind : Type 0 where
  invalid object array integer fraction boolean null : Kind
  short_string long_string decimal_string : Kind

-- `Shape` and `Field`, with the lists of them.
mutual
  pub data Shape : Type 0 where
    shape : Kind → Fields → Shapes → ℕ → Bool → Shape

  pub data Fields : Type 0 where
    no_fields : Fields
    field : List ℕ → Bool → Shape → Fields → Fields

  pub data Shapes : Type 0 where
    no_shapes : Shapes
    a_shape : Shape → Shapes → Shapes

-- `append`.
unfoldable pub add_field : Fields → List ℕ → Bool → Shape → Fields
add_field no_fields name elided s = field name elided s no_fields
add_field (field n b t fs) name elided s = field n b t (add_field fs name elided s)

unfoldable pub add_shape : Shapes → Shape → Shapes
add_shape no_shapes s = a_shape s no_shapes
add_shape (a_shape t ss) s = a_shape t (add_shape ss s)

unfoldable pub length_fields : Fields → ℕ
length_fields no_fields = 0
length_fields (field n b t fs) = suc (length_fields fs)

unfoldable pub length_shapes : Shapes → ℕ
length_shapes no_shapes = 0
length_shapes (a_shape t ss) = suc (length_shapes ss)

abbrev pub leaf : Kind → Shape
leaf k = shape k no_fields no_shapes 0 false

-- `shape.Elided = shape.Elided || e.elided`.
abbrev pub elided_in : Bool → Shape → Shape
elided_in elided (shape k fs ss n b) = shape k fs ss n (b || elided)

-- `Limits`, less those fields below zero.
pub record Limits : Type 0 where
  pub max_depth : ℕ
  pub max_nodes : ℕ
  pub max_fields : ℕ
  pub max_elem_shapes : ℕ
  pub max_name_bytes : ℕ
  pub short_string_bytes : ℕ

-- `DefaultLimits`.
abbrev pub default_limits : Limits
default_limits = record {
  max_depth = 32;
  max_nodes = 4096;
  max_fields = 512;
  max_elem_shapes = 8;
  max_name_bytes = 128;
  short_string_bytes = 64;
}

abbrev or_default : ℕ → ℕ → ℕ
or_default n d = if n == 0 then d else n

-- `orDefaults`.
unfoldable pub or_defaults : Limits → Limits
or_defaults l = record {
  max_depth = or_default l.max_depth default_limits.max_depth;
  max_nodes = or_default l.max_nodes default_limits.max_nodes;
  max_fields = or_default l.max_fields default_limits.max_fields;
  max_elem_shapes = or_default l.max_elem_shapes default_limits.max_elem_shapes;
  max_name_bytes = or_default l.max_name_bytes default_limits.max_name_bytes;
  short_string_bytes = or_default l.short_string_bytes default_limits.short_string_bytes;
}

unfoldable pub all_digits : List ℕ → Bool
all_digits [] = true
all_digits (c ∷ cs) = is_digit c && all_digits cs

-- `digits`.
unfoldable pub digits : List ℕ → Bool
unfolding all_digits
digits [] = false
digits (c ∷ cs) = all_digits (c ∷ cs)

-- `strings.TrimPrefix` with "-".
abbrev pub without_minus : List ℕ → List ℕ
without_minus [] = []
without_minus (c ∷ cs) = if c == 45 then cs else c ∷ cs

-- `strings.Cut` at ".": what stands before it, what stands behind it, and whether there is one.
unfoldable pub cut_at_dot : List ℕ → List ℕ × List ℕ × Bool
cut_at_dot [] = ([], [], false)
cut_at_dot (c ∷ cs) =
    let rest = cut_at_dot cs in if c == 46 then ([], cs, true) else (c ∷ rest.0, rest.1, rest.2)

-- `isDecimal`.
unfoldable pub is_decimal : List ℕ → Bool
unfolding digits cut_at_dot
is_decimal s =
    let (whole, part, dotted) = cut_at_dot (without_minus s) in
    digits whole && (not dotted || digits part)

-- `stringKind`.
unfoldable pub string_kind : Limits → List ℕ → Kind
unfolding is_decimal
string_kind l s =
    if is_decimal s
    then decimal_string
    else if leb (length s) l.short_string_bytes
    then short_string
    else long_string

-- `strings.ContainsAny` with ".eE".
unfoldable pub has_fraction : List ℕ → Bool
has_fraction [] = false
has_fraction (c ∷ cs) = c == 46 || c == 101 || c == 69 || has_fraction cs

-- `numberKind`.
unfoldable pub number_kind : List ℕ → Kind
unfolding has_fraction
number_kind s = if has_fraction s then fraction else integer

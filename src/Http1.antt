-- ===== src/Http1.antt =====
-- http1/http1.go, the types, and what renders a message's first line. Texts are lists of bytes. A
-- message's `Detail`, one line of text on what went wrong, is left out. `Status` is an int.
pub mod Lines
pub mod Framing
pub mod Parser
mod Tests
use edge_observer.Prelude.{
  ℕ, zero, suc, ◌+◌, ◌*◌, ◌/◌, ◌%◌, Bool, true, false, List, [], ◌∷◌, ◌++◌, Option, none, some, ltb,
  leb, ◌==◌, if◌then◌else◌,
}
use edge_observer.Prelude.Bytes.{equal_fold}

-- `Kind`.
pub data Kind : Type 0 where
  unknown_kind request response : Kind

abbrev pub is_response : Kind → Bool
is_response response = true
is_response _ = false

-- `Framing`.
pub data BodyEnd : Type 0 where
  no_body content_length chunked until_close ambiguous : BodyEnd

-- `Defect`.
pub data Defect : Type 0 where
  intact stream_ended hole malformed ambiguous_framing limit : Defect

-- `Header`.
pub record Header : Type 0 where
  pub name : List ℕ
  pub value : List ℕ

-- `Message`.
pub record Message : Type 0 where
  pub kind : Kind
  pub method : List ℕ
  pub target : List ℕ
  pub protocol : List ℕ
  pub status : ℕ
  pub reason : List ℕ
  pub headers : List Header
  pub framing : BodyEnd
  pub body : List ℕ
  pub body_length : ℕ
  pub body_holed : ℕ
  pub body_elided : ℕ
  pub trailers : List Header
  pub complete : Bool
  pub framed : Bool
  pub defect : Defect
  pub offset : ℕ
  pub end_ : ℕ

-- A message of this kind that begins at this offset.
abbrev pub new_message : Kind → ℕ → Message
new_message kind offset = record {
  kind = kind;
  method = [];
  target = [];
  protocol = [];
  status = 0;
  reason = [];
  headers = [];
  framing = no_body;
  body = [];
  body_length = 0;
  body_holed = 0;
  body_elided = 0;
  trailers = [];
  complete = false;
  framed = false;
  defect = intact;
  offset = offset;
  end_ = 0;
}

-- `Lookup`.
unfoldable pub lookup_in : List Header → List ℕ → Option (List ℕ)
lookup_in [] name = none
lookup_in (h ∷ hs) name =
    let later = lookup_in hs name in if equal_fold h.name name then some h.value else later

unfoldable pub lookup : Message → List ℕ → Option (List ℕ)
unfolding lookup_in
lookup m name = lookup_in m.headers name

-- `strconv.Itoa`, of a number that is not negative, in as many digits as there is fuel for.
unfoldable pub itoa_within : ℕ → ℕ → List ℕ
itoa_within zero n = []
itoa_within (suc fuel) n =
    let front = itoa_within fuel (n / 10) in
    if ltb n 10 then (48 + n) ∷ [] else front ++ (48 + n % 10) ∷ []

unfoldable pub itoa : ℕ → List ℕ
unfolding itoa_within
itoa n = itoa_within (suc n) n

abbrev pub is_empty : List ℕ → Bool
is_empty [] = true
is_empty _ = false

-- `StartLine`.
unfoldable pub start_line : Message → List ℕ
unfolding itoa
start_line m = elim m.kind [
  | request ↦ m.method ++ 32 ∷ m.target ++ 32 ∷ m.protocol
  | response ↦ m.protocol ++ 32 ∷ itoa m.status ++ (if is_empty m.reason then [] else 32 ∷ m.reason)
  | unknown_kind ↦ []
]

-- `Limits`.
pub record Limits : Type 0 where
  pub max_start_line : ℕ
  pub max_header_line : ℕ
  pub max_headers : ℕ
  pub max_header_bytes : ℕ
  pub max_body_bytes : ℕ
  pub max_chunks : ℕ
  pub max_trailers : ℕ

-- `DefaultLimits`.
abbrev pub default_limits : Limits
default_limits = record {
  max_start_line = 8_192;
  max_header_line = 8_192;
  max_headers = 128;
  max_header_bytes = 65_536;
  max_body_bytes = 8_388_608;
  max_chunks = 16_384;
  max_trailers = 32;
}

abbrev or_default : ℕ → ℕ → ℕ
or_default n d = if n == 0 then d else n

-- `orDefaults`, of limits that are not negative.
unfoldable pub or_defaults : Limits → Limits
or_defaults l = record {
  max_start_line = or_default l.max_start_line default_limits.max_start_line;
  max_header_line = or_default l.max_header_line default_limits.max_header_line;
  max_headers = or_default l.max_headers default_limits.max_headers;
  max_header_bytes = or_default l.max_header_bytes default_limits.max_header_bytes;
  max_body_bytes = or_default l.max_body_bytes default_limits.max_body_bytes;
  max_chunks = or_default l.max_chunks default_limits.max_chunks;
  max_trailers = or_default l.max_trailers default_limits.max_trailers;
}

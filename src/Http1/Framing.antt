-- ===== src/Http1/Framing.antt =====
-- http1/http1.go, `frame`: how the end of a message's body is known, from its fields alone.
pub mod Delimited
use edge_observer.Prelude.{
  ℕ, zero, suc, ◌+◌, Bool, true, false, not, ◌&&◌, ◌||◌, List, [], ◌∷◌, ◌++◌, Option, none, some,
  map, ltb, leb, ◌==◌, if◌then◌else◌,
}
use edge_observer.Prelude.Bytes.{
  codes, same_bytes, equal_fold, lower_byte, split_at, trim, decimal_from,
}
use edge_observer.Http1.{
  Kind, unknown_kind, request, response, is_response, BodyEnd, no_body, content_length, chunked,
  until_close, ambiguous, Header, Message,
}
use edge_observer.Http1.Lines.{is_digits, size_limit}

-- `splitList`.
unfoldable pub split_list : List ℕ → List (List ℕ)
unfolding split_at trim
split_list value = map trim (split_at 44 value)

-- `strings.ToLower`, as far as a comparison with an ASCII text can see it. Two letters beyond ASCII
-- have a lower case in ASCII, the Kelvin sign and the capital i with a dot.
unfoldable pub to_lower : List ℕ → List ℕ
to_lower [] = []
to_lower (a ∷ []) = lower_byte a ∷ []
to_lower (a ∷ b ∷ []) =
    if a == 0xc4 && b == 0xb0 then 105 ∷ [] else lower_byte a ∷ lower_byte b ∷ []
to_lower (a ∷ b ∷ c ∷ cs) =
    let one = lower_byte a ∷ to_lower (b ∷ c ∷ cs) in
    let two = 105 ∷ to_lower (c ∷ cs) in
    let three = 107 ∷ to_lower cs in
    if a == 0xe2 && b == 0x84 && c == 0xaa
    then three
    else if a == 0xc4 && b == 0xb0
    then two
    else one

-- What the first loop gathers.
pub record Declared : Type 0 where
  pub lengths : List (List ℕ)
  pub codings : List (List ℕ)
  pub declares_encoding : Bool

abbrev pub nothing_declared : Declared
nothing_declared = record { lengths = []; codings = []; declares_encoding = false }

unfoldable pub gather_one : Declared → Header → Declared
unfolding equal_fold to_lower
gather_one d h =
    if equal_fold h.name (codes "content-length")
    then record d { lengths = d.lengths ++ split_list h.value }
    else if equal_fold h.name (codes "transfer-encoding")
    then record d {
      codings = d.codings ++ map to_lower (split_list h.value);
      declares_encoding = true;
    }
    else d

unfoldable pub gather : Declared → List Header → Declared
gather d [] = d
gather d (h ∷ hs) = gather (gather_one d h) hs

-- The reasons to refuse a message that the detail names.
pub data Refusal : Type 0 where
  empty_encoding chunked_twice coding_after_chunked unknown_encoding lengths_disagree : Refusal
  bad_length : Refusal

-- What `frame` returns.
pub record Frame : Type 0 where
  pub framing : BodyEnd
  pub size : ℕ
  pub refusal : Option Refusal

abbrev pub framed_as : BodyEnd → ℕ → Frame
framed_as f n = record { framing = f; size = n; refusal = none }

abbrev pub refused_for : Refusal → Frame
refused_for r = record { framing = no_body; size = 0; refusal = some r }

-- `statusForbidsBody`.
abbrev pub status_forbids_body : ℕ → Bool
status_forbids_body status = (leb 100 status && ltb status 200) || status == 204 || status == 304

unfoldable pub is_chunked : List ℕ → Bool
unfolding same_bytes
is_chunked coding = same_bytes coding (codes "chunked")

unfoldable pub some_chunked : List (List ℕ) → Bool
some_chunked [] = false
some_chunked (w ∷ ws) = is_chunked w || some_chunked ws

-- The last of the codings, from the first and those after it, and all but the last.
unfoldable pub last_of : List ℕ → List (List ℕ) → List ℕ
last_of w [] = w
last_of w (v ∷ vs) = last_of v vs

unfoldable pub but_last : List ℕ → List (List ℕ) → List (List ℕ)
but_last w [] = []
but_last w (v ∷ vs) = w ∷ but_last v vs

unfoldable pub frame_encoded : Kind → List (List ℕ) → Frame
unfolding some_chunked last_of but_last
frame_encoded kind [] = refused_for empty_encoding
frame_encoded kind (w ∷ ws) =
    if is_chunked (last_of w ws)
    then if some_chunked (but_last w ws) then refused_for chunked_twice else framed_as chunked 0
    else if some_chunked (w ∷ ws)
    then refused_for coding_after_chunked
    else elim kind [ request ↦ refused_for unknown_encoding | _ ↦ framed_as until_close 0 ]

unfoldable pub all_equal : List ℕ → List (List ℕ) → Bool
unfolding same_bytes
all_equal w [] = true
all_equal w (v ∷ vs) = same_bytes v w && all_equal w vs

unfoldable pub frame_length : List ℕ → List (List ℕ) → Frame
unfolding all_equal is_digits decimal_from
frame_length w ws =
    if not (all_equal w ws)
    then refused_for lengths_disagree
    else if not (is_digits w) || leb size_limit (decimal_from 0 w)
    then refused_for bad_length
    else framed_as content_length (decimal_from 0 w)

abbrev pub is_empty : List (List ℕ) → Bool
is_empty [] = true
is_empty _ = false

-- `frame`, after the first loop.
unfoldable pub frame_by : List (List ℕ) → List (List ℕ) → Bool → Kind → Bool → ℕ → Frame
unfolding frame_encoded frame_length
frame_by lengths codings declares_encoding kind bodiless status =
    if declares_encoding && not (is_empty lengths)
    then framed_as ambiguous 0
    else if is_response kind && (bodiless || status_forbids_body status)
    then framed_as no_body 0
    else if declares_encoding
    then frame_encoded kind codings
    else elim lengths [
      | w ∷ ws ↦ frame_length w ws
      | [] ↦ if is_response kind then framed_as until_close 0 else framed_as no_body 0
    ]

unfoldable pub frame_declared : Declared → Kind → Bool → ℕ → Frame
unfolding frame_by
frame_declared d = frame_by d.lengths d.codings d.declares_encoding

-- `frame`.
unfoldable pub frame : Message → Kind → Bool → Frame
unfolding gather frame_declared
frame m kind bodiless = frame_declared (gather nothing_declared m.headers) kind bodiless m.status

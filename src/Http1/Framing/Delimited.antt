-- ===== src/Http1/Framing/Delimited.antt =====
-- http1/http1.go, `frame`: what the field section declares, and what each framing rests on.
use mathlib.Core.List.{append-nil, append_assoc, map-append}
use edge_observer.Prelude.{
  ℕ, ◌<◌, ◌≡◌, refl, ap, ◌∙◌, ◌≢◌, ◌↔◌, ◌⊎◌, ◌&&◌, inl, inr, Bool, true, false, ◌||◌, not, List, [],
  ◌∷◌, ◌++◌, map, arith, if◌then◌else◌, Bool-cases,
}
use edge_observer.Prelude.Bytes.{
  codes, equal_fold, split_at, split_at-cons, same_bytes, same_bytes_iff, trim, decimal_from,
}
use edge_observer.Http1.{
  Kind, is_response, no_body, content_length, chunked, ambiguous, Header, Message,
}
use edge_observer.Http1.Lines.{is_digits, size_limit}
use edge_observer.Http1.Framing.{
  Declared, nothing_declared, gather_one, gather, split_list, to_lower, frame_declared, frame_by,
  Frame, framed_as, status_forbids_body, frame, is_chunked, some_chunked, is_empty, last_of,
  but_last, all_equal, frame_encoded, frame_length,
}

-- Whether a field has this name, whatever the case.
unfoldable pub declares : List ℕ → List Header → Bool
unfolding equal_fold
declares name [] = false
declares name (h ∷ hs) = equal_fold h.name name || declares name hs

-- The elements of every field with this name, in the order sent.
unfoldable pub values_of : List ℕ → List Header → List (List ℕ)
unfolding equal_fold
values_of name [] = []
values_of name (h ∷ hs) =
    (if equal_fold h.name name then split_list h.value else []) ++ values_of name hs

abbrev pub length_field : List ℕ
length_field = codes "content-length"

abbrev pub encoding_field : List ℕ
encoding_field = codes "transfer-encoding"

-- No field has both names.
one_name : (n : List ℕ) → equal_fold n length_field ≡ true → equal_fold n encoding_field ≡ false
unfolding equal_fold
one_name [] h = ground arith
one_name (c ∷ cs) h = ground arith

or-true : (b : Bool) → (b || true) ≡ true
or-true b = ground arith

or-false : (b : Bool) → (b || false) ≡ b
or-false b = ground arith

abbrev declared_by : Declared → List Header → Declared
declared_by d hs = record {
  lengths = d.lengths ++ values_of length_field hs;
  codings = d.codings ++ map to_lower (values_of encoding_field hs);
  declares_encoding = d.declares_encoding || declares encoding_field hs;
}

declared_by_one :
    (d : Declared) (h : Header) (hs : List Header)
    → declared_by (gather_one d h) hs ≡ declared_by d (h ∷ hs)
unfolding values_of declares gather_one split_list
declared_by_one d h hs = elim (Bool-cases (equal_fold h.name length_field)) [
  | inl a ↦ simp (a, one_name h.name a, append_assoc)
  | inr a ↦ elim (Bool-cases (equal_fold h.name encoding_field)) [
    | inl b ↦ simp (a, b, append_assoc, map-append, or-true)
    | inr b ↦ simp (a, b)
  ]
]

gather_lem : (d : Declared) (hs : List Header) → gather d hs ≡ declared_by d hs
unfolding gather values_of declares
gather_lem d [] = simp (append-nil, or-false)
gather_lem d (h ∷ hs) = gather_lem (gather_one d h) hs ∙ declared_by_one d h hs

-- What the message's fields declare, read off field by field.
gathered : (hs : List Header) → gather nothing_declared hs ≡ declared_by nothing_declared hs
gathered hs = gather_lem nothing_declared hs

-- Every value has an element, if an empty one.
is_empty-split_list : (v : List ℕ) (ws : List (List ℕ)) → is_empty (split_list v ++ ws) ≡ false
unfolding split_list split_at
is_empty-split_list v ws = front (split_at 44 v) (split_at-cons 44 v)
  where
    front : (us : List (List ℕ)) → us ≢ [] → is_empty (map trim us ++ ws) ≡ false
    front [] h = absurd (h refl)
    front (u ∷ us) h = refl

is_empty-values_of :
    (name : List ℕ) (hs : List Header) → is_empty (values_of name hs) ≡ not (declares name hs)
unfolding values_of declares
is_empty-values_of name [] = refl
is_empty-values_of name (h ∷ hs) = elim (Bool-cases (equal_fold h.name name)) [
  | inl a ↦ rw (a, is_empty-split_list h.value (values_of name hs)) refl
  | inr a ↦ rw a (is_empty-values_of name hs)
]

abbrev pub AllAre : List ℕ → List (List ℕ) → Type 0
AllAre w [] = Unit
AllAre w (v ∷ vs) = (v ≡ w) × AllAre w vs

all_equal-AllAre : (w : List ℕ) (ws : List (List ℕ)) → all_equal w ws ≡ true → AllAre w ws
unfolding all_equal
all_equal-AllAre w [] h = tt
all_equal-AllAre w (v ∷ vs) h =
    (ground (arith, same_bytes_iff v w), all_equal-AllAre w vs (ground arith))

length_framing :
    (w : List ℕ) (ws : List (List ℕ))
    → (frame_length w ws).framing ≡ content_length
    → (all_equal w ws ≡ true)
      × (is_digits w ≡ true)
      × ((frame_length w ws).size ≡ decimal_from 0 w)
      × (decimal_from 0 w < size_limit)
unfolding frame_length
length_framing w ws e = ground arith

length_not :
    (w : List ℕ) (ws : List (List ℕ))
    → ((frame_length w ws).framing ≢ ambiguous) × ((frame_length w ws).framing ≢ chunked)
unfolding frame_length
length_not w ws = ground arith

encoded_not :
    (kind : Kind) (ws : List (List ℕ))
    → ((frame_encoded kind ws).framing ≢ ambiguous)
      × ((frame_encoded kind ws).framing ≢ content_length)
unfolding frame_encoded
encoded_not kind [] = ground arith
encoded_not kind (w ∷ ws) = ground arith

encoded_chunked :
    (kind : Kind) (cs : List (List ℕ))
    → (frame_encoded kind cs).framing ≡ chunked
    → (w : List ℕ) × (ws : List (List ℕ)) × (cs ≡ w ∷ ws)
      × (last_of w ws ≡ codes "chunked")
      × (some_chunked (but_last w ws) ≡ false)
unfolding frame_encoded is_chunked same_bytes
encoded_chunked kind [] e = cc
encoded_chunked kind (w ∷ ws) e =
    (w, ws, refl, (same_bytes_iff (last_of w ws) (codes "chunked")).0 (ground arith), ground arith)

ambiguous_iff :
    (ls cs : List (List ℕ)) (b : Bool) (kind : Kind) (bodiless : Bool) (status : ℕ)
    → ((frame_by ls cs b kind bodiless status).framing ≡ ambiguous)
      ↔ ((is_empty ls ≡ false) × (b ≡ true))
unfolding frame_by
ambiguous_iff [] cs b kind bodiless status = ground (arith, encoded_not kind cs)
ambiguous_iff (w ∷ ws) cs b kind bodiless status = ground (arith, length_not w ws)

content_length_lem :
    (ls cs : List (List ℕ)) (b : Bool) (kind : Kind) (bodiless : Bool) (status : ℕ)
    → (frame_by ls cs b kind bodiless status).framing ≡ content_length
    → (w : List ℕ) × (ws : List (List ℕ)) × (ls ≡ w ∷ ws)
      × AllAre w ws
      × (is_digits w ≡ true)
      × (b ≡ false)
      × ((frame_by ls cs b kind bodiless status).size ≡ decimal_from 0 w)
      × (decimal_from 0 w < size_limit)
unfolding frame_by
content_length_lem [] cs b kind bodiless status e = absurd (ground (arith, encoded_not kind cs))
content_length_lem (w ∷ ws) cs b kind bodiless status e = (
  w,
  ws,
  refl,
  all_equal-AllAre w ws (ground (arith, encoded_not kind cs, length_framing w ws)),
  ground (arith, encoded_not kind cs, length_framing w ws),
  ground (arith, encoded_not kind cs),
  ground (arith, encoded_not kind cs, length_framing w ws),
  ground (arith, encoded_not kind cs, length_framing w ws),
)

chunked_lem :
    (ls cs : List (List ℕ)) (b : Bool) (kind : Kind) (bodiless : Bool) (status : ℕ)
    → (frame_by ls cs b kind bodiless status).framing ≡ chunked
    → (is_empty ls ≡ true) × ((frame_encoded kind cs).framing ≡ chunked)
unfolding frame_by
chunked_lem [] cs b kind bodiless status e = ground arith
chunked_lem (w ∷ ws) cs b kind bodiless status e = ground (arith, length_not w ws)

abbrev frame_of_fields : Message → Kind → Bool → Frame
frame_of_fields m kind bodiless =
    frame_by (values_of length_field m.headers) (map to_lower (values_of encoding_field m.headers))
      (declares encoding_field m.headers) kind bodiless m.status

frame_lem :
    (m : Message) (kind : Kind) (bodiless : Bool)
    → frame m kind bodiless ≡ frame_of_fields m kind bodiless
unfolding frame
frame_lem m kind bodiless =
    ap (λ (d : Declared). frame_declared d kind bodiless m.status) (gathered m.headers)

bodiless_lem :
    (ls cs : List (List ℕ)) (b : Bool) (kind : Kind) (bodiless : Bool) (status : ℕ)
    → ((frame_by ls cs b kind bodiless status).framing ≡ ambiguous)
      ⊎ ((is_response kind && (bodiless || status_forbids_body status)) ≡ false)
      ⊎ (frame_by ls cs b kind bodiless status ≡ framed_as no_body 0)
unfolding frame_by
bodiless_lem ls cs b kind bodiless status =
    elim (Bool-cases (is_response kind && (bodiless || status_forbids_body status))) [
      | inr with_body ↦ inr (inl with_body)
      | inl without ↦ elim (Bool-cases (b && not (is_empty ls))) [
        | inl both ↦ inl (ground arith)
        | inr one ↦ inr (inr (ground arith))
      ]
    ]

-- A message is framed as ambiguous just when its fields declare both a length and a transfer
-- encoding, whatever its kind and status, a response to HEAD or with a status without body
-- included; and any other such response is framed as having no body, and not refused.
pub frame_ambiguous_iff :
    (m : Message) (kind : Kind) (bodiless : Bool)
    → (((frame m kind bodiless).framing ≡ ambiguous)
        ↔ ((declares length_field m.headers ≡ true) × (declares encoding_field m.headers ≡ true)))
      × (((frame m kind bodiless).framing ≡ ambiguous)
          ⊎ ((is_response kind && (bodiless || status_forbids_body m.status)) ≡ false)
          ⊎ (frame m kind bodiless ≡ framed_as no_body 0))
frame_ambiguous_iff m kind bodiless =
    let ls = values_of length_field m.headers in
    let cs = map to_lower (values_of encoding_field m.headers) in
    let b = declares encoding_field m.headers in
    rw (frame_lem m kind bodiless) (
      ground (
        arith,
        ambiguous_iff ls cs b kind bodiless m.status,
        is_empty-values_of length_field m.headers,
      ),
      bodiless_lem ls cs b kind bodiless m.status,
    )

-- A message framed by a length declares no transfer encoding, and all the lengths that it declares
-- are one decimal numeral, below 2^63, whose value is the body's length.
pub frame_content_length :
    (m : Message) (kind : Kind) (bodiless : Bool)
    → (frame m kind bodiless).framing ≡ content_length
    → (w : List ℕ) × (ws : List (List ℕ)) × (values_of length_field m.headers ≡ w ∷ ws)
      × AllAre w ws
      × (is_digits w ≡ true)
      × (declares encoding_field m.headers ≡ false)
      × ((frame m kind bodiless).size ≡ decimal_from 0 w)
      × (decimal_from 0 w < size_limit)
frame_content_length m kind bodiless e = rw (frame_lem m kind bodiless) (
    content_length_lem (values_of length_field m.headers)
      (map to_lower (values_of encoding_field m.headers)) (declares encoding_field m.headers) kind
      bodiless m.status (rw (frame_lem m kind bodiless) at e))

-- A message framed by chunks declares no length; the last transfer coding that it declares, letters
-- in lower case, is chunked, and no other is.
pub frame_chunked :
    (m : Message) (kind : Kind) (bodiless : Bool)
    → (frame m kind bodiless).framing ≡ chunked
    → (w : List ℕ) × (ws : List (List ℕ)) × (map to_lower (values_of encoding_field m.headers)
        ≡ w ∷ ws)
      × (last_of w ws ≡ codes "chunked")
      × (some_chunked (but_last w ws) ≡ false)
      × (declares length_field m.headers ≡ false)
frame_chunked m kind bodiless e =
    let (no_length, sent) = by_fields in
    let (w, ws, eq, last, rest) = encoded_chunked kind _ sent in
    (w, ws, eq, last, rest, ground (arith, no_length, is_empty-values_of length_field m.headers))
  where
    by_fields :
        (is_empty (values_of length_field m.headers) ≡ true)
        × ((frame_encoded kind (map to_lower (values_of encoding_field m.headers))).framing
            ≡ chunked)
    by_fields =
        chunked_lem (values_of length_field m.headers)
          (map to_lower (values_of encoding_field m.headers)) (declares encoding_field m.headers)
          kind bodiless m.status (rw (frame_lem m kind bodiless) at e)

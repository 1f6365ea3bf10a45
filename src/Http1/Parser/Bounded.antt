-- ===== src/Http1/Parser/Bounded.antt =====
-- http1/parser.go, `Limits`: what a parser keeps of a message stays within its limits.
pub mod Runs
pub mod Kept
use edge_observer.Prelude.{
  ℕ, zero, suc, ◌+◌, ◌-◌, ◌*◌, ◌≤◌, ◌<◌, ◌≡◌, refl, sym, ap, ◌∙◌, inl, inr, Bool, true, false, not,
  ◌||◌, List, [], ◌∷◌, ◌++◌, Option, none, some, arith, ltb, leb, ◌==◌, if◌then◌else◌, length, take,
  drop, min, length-append, length-take, Bool-cases, Option-cases,
}
use edge_observer.Http1.{
  Kind, request, response, unknown_kind, BodyEnd, Defect, Message, Header, Limits,
}
use edge_observer.Http1.Framing.{Frame, frame}
use edge_observer.Http1.Lines.{
  request_of, read_request_line, read_status_line, read_header, chunk_size,
}
use edge_observer.Http1.Lines.Fields.{read_header_sound}
use edge_observer.Prelude.Bytes.{split_at}
use edge_observer.Http1.Parser.{
  Result, Phase, Parser, Progress, Step, refuse, hand_over, take_line, drop_line, release,
}
use edge_observer.Http1.Parser.Scan.{Scanned}
use edge_observer.Http1.Parser.Steps.{
  begin, LineEnd, open_, ended, event, line_grows, line_read, read_line, start_read, start_line,
  refuse_line, body_step, chunk_size_next, frame_as, frame_message, body_follows,
}
use edge_observer.Http1.Parser.Input.{
  fields_ended, field_read, field_counted, field_taken, field_line, trailer_read, trailer_taken,
  trailer_line, sized, size_line, body_takes, body_keeps, body_gains, body, body_granted, chunk_end,
  after_line, read_in,
}
use edge_observer.Http1.Parser.Feed.{holed, hole_in}
use edge_observer.Http1.Parser.Accounted.{idle}

-- The bytes of the names and the values.
unfoldable pub size_of_fields : List Header → ℕ
size_of_fields [] = 0
size_of_fields (h ∷ hs) = length h.name + length h.value + size_of_fields hs

size_of_fields-snoc :
    (hs : List Header) (h : Header)
    → size_of_fields (hs ++ (h ∷ [])) ≡ size_of_fields hs + (length h.name + length h.value)
unfolding size_of_fields
size_of_fields-snoc [] h = ground arith
size_of_fields-snoc (g ∷ hs) h = ground (arith, size_of_fields-snoc hs h)

-- A message within limits.
abbrev pub Within : Limits → Message → Type 0
Within l m =
    (length m.headers ≤ l.max_headers)
    × (size_of_fields m.headers ≤ l.max_header_bytes)
    × (length m.trailers ≤ l.max_trailers)
    × (length m.body ≤ l.max_body_bytes)

abbrev pub EventWithin : Limits → Option Progress → Type 0
EventWithin l none = Unit
EventWithin l (some e) = (m : Message) → e.message ≡ some m → Within l m

abbrev pub IsBounded : Parser → Type 0
IsBounded p =
    Within p.limits p.message
    × (idle p.phase ≡ false
        → (size_of_fields p.message.headers ≤ p.header_bytes)
          × (p.header_bytes ≤ p.limits.max_header_bytes))

-- A step of a parser with these limits.
abbrev pub StepBounded : Limits → Step → Type 0
StepBounded l s = IsBounded s.parser × (s.parser.limits ≡ l) × EventWithin l s.event

length-read_header :
    (line : List ℕ) (h : Header)
    → read_header line ≡ some h
    → length h.name + length h.value ≤ length line
length-read_header line h e =
    let (lead, trail, b, d, l, t, v, x, y) = read_header_sound line h e in
    omega (
      arith,
      ap (λ (t : List ℕ). length t) l,
      length-append h.name (58 ∷ (lead ++ h.value ++ trail)),
      length-append (lead ++ h.value) trail,
      length-append lead h.value,
    )

request_of-keeps :
    (m n : Message) (ws : List (List ℕ))
    → request_of m ws ≡ some n
    → (n.headers ≡ m.headers) × (n.trailers ≡ m.trailers) × (n.body ≡ m.body)
unfolding request_of
request_of-keeps m n [] e = cc
request_of-keeps m n (a ∷ []) e = cc
request_of-keeps m n (a ∷ b ∷ []) e = cc
request_of-keeps m n (a ∷ b ∷ c ∷ []) e = ground arith
request_of-keeps m n (a ∷ b ∷ c ∷ d ∷ ws) e = cc

read_status_line-keeps :
    (m n : Message) (line : List ℕ)
    → read_status_line m line ≡ some n
    → (n.headers ≡ m.headers) × (n.trailers ≡ m.trailers) × (n.body ≡ m.body)
unfolding read_status_line
read_status_line-keeps m n line e = ground arith

pub begin-bounded : (p : Parser) → IsBounded p → StepBounded p.limits (begin p)
unfolding begin size_of_fields
begin-bounded p b = ground arith

pub refuse-bounded :
    (d : Defect) (p : Parser) → Within p.limits p.message → StepBounded p.limits (refuse d p)
unfolding size_of_fields
refuse-bounded d p b = ground arith

pub refuse_line-bounded :
    (d : Defect) (line : List ℕ) (p : Parser)
    → Within p.limits p.message
    → StepBounded p.limits (refuse_line d line p)
unfolding size_of_fields
refuse_line-bounded d line p b = ground arith

pub body_step-bounded :
    (p : Parser) → IsBounded p → idle p.phase ≡ false → StepBounded p.limits (body_step p)
unfolding body_step size_of_fields
body_step-bounded p b i = ground arith

pub frame_as-bounded :
    (f : Frame) (p : Parser)
    → IsBounded p
    → idle p.phase ≡ false
    → StepBounded p.limits (frame_as f p)
unfolding frame_as body_step size_of_fields
frame_as-bounded f p b i = ground arith

pub frame_message-bounded :
    (b : Bool) (p : Parser)
    → IsBounded p
    → idle p.phase ≡ false
    → StepBounded p.limits (frame_message b p)
unfolding frame_message
frame_message-bounded b p w i =
    frame_as-bounded (frame p.message p.kind b)
      (record p { message = record (p.message) { framing = (frame p.message p.kind b).framing } }) w
      i

pub fields_ended-bounded :
    (p : Parser) → IsBounded p → idle p.phase ≡ false → StepBounded p.limits (fields_ended p)
unfolding fields_ended
fields_ended-bounded p b i = ground (arith, frame_message-bounded false p b i)

pub start_read-bounded :
    (o : Option Message) (line : List ℕ) (p : Parser)
    → IsBounded p
    → idle p.phase ≡ false
    → ((n : Message)
        → o ≡ some n
        → (n.headers ≡ p.message.headers)
          × (n.trailers ≡ p.message.trailers)
          × (n.body ≡ p.message.body))
    → StepBounded p.limits (start_read o line p)
start_read-bounded none line p b i k = refuse_line-bounded Defect.malformed line p b.0
start_read-bounded (some n) line p b i k = ground (arith, k n refl)

pub start_line-bounded :
    (p : Parser) → IsBounded p → idle p.phase ≡ false → StepBounded p.limits (start_line p)
unfolding start_line read_request_line
start_line-bounded p b i = ground (
  arith,
  start_read-bounded (read_request_line p.message p.line) p.line (take_line p) b i
      (λ n. request_of-keeps p.message n (split_at 32 p.line)),
  start_read-bounded (read_status_line p.message p.line) p.line (take_line p) b i
      (λ n. read_status_line-keeps p.message n p.line),
  refuse_line-bounded Defect.malformed p.line (take_line p) b.0,
)

pub field_read-bounded :
    (o : Option Header) (line : List ℕ) (p : Parser)
    → Within p.limits p.message
    → length p.message.headers < p.limits.max_headers
    → size_of_fields p.message.headers + length line ≤ p.header_bytes
    → p.header_bytes ≤ p.limits.max_header_bytes
    → ((h : Header) → o ≡ some h → length h.name + length h.value ≤ length line)
    → StepBounded p.limits (field_read o line p)
field_read-bounded none line p w l a b k = refuse_line-bounded Defect.malformed line p w
field_read-bounded (some h) line p w l a b k = ground (
  arith,
  k h refl,
  size_of_fields-snoc p.message.headers h,
  length-append p.message.headers (h ∷ []),
)

pub field_taken-bounded :
    (line : List ℕ) (p : Parser)
    → IsBounded p
    → idle p.phase ≡ false
    → StepBounded p.limits (field_taken line p)
unfolding field_counted
field_taken-bounded [] p b i = fields_ended-bounded p b i
field_taken-bounded (c ∷ cs) p b i = ground (
  arith,
  refuse_line-bounded Defect.limit (c ∷ cs) p b.0,
  refuse_line-bounded Defect.limit (c ∷ cs)
      (record p { header_bytes = p.header_bytes + length (c ∷ cs) }) b.0,
  field_read-bounded (read_header (c ∷ cs)) (c ∷ cs)
      (record p { header_bytes = p.header_bytes + length (c ∷ cs) }) b.0,
  length-read_header (c ∷ cs),
)

pub trailer_read-bounded :
    (o : Option Header) (line : List ℕ) (p : Parser)
    → IsBounded p
    → length p.message.trailers < p.limits.max_trailers
    → StepBounded p.limits (trailer_read o line p)
trailer_read-bounded none line p b l = refuse_line-bounded Defect.malformed line p b.0
trailer_read-bounded (some h) line p b l = ground (arith, length-append p.message.trailers (h ∷ []))

pub trailer_taken-bounded :
    (line : List ℕ) (p : Parser)
    → IsBounded p
    → idle p.phase ≡ false
    → StepBounded p.limits (trailer_taken line p)
unfolding trailer_taken size_of_fields
trailer_taken-bounded [] p b i = ground arith
trailer_taken-bounded (c ∷ cs) p b i = ground (
  arith,
  refuse_line-bounded Defect.limit (c ∷ cs) p b.0,
  trailer_read-bounded (read_header (c ∷ cs)) (c ∷ cs) p b,
)

pub size_line-bounded :
    (p : Parser) → IsBounded p → idle p.phase ≡ false → StepBounded p.limits (size_line p)
unfolding size_line size_of_fields
size_line-bounded p b i = ground arith

pub chunk_end-bounded :
    (b : ℕ) (p : Parser) → IsBounded p → idle p.phase ≡ false → StepBounded p.limits (chunk_end b p)
unfolding chunk_end size_of_fields
chunk_end-bounded b p w i = ground arith

pub body_gains-IsBounded :
    (taken keep : ℕ) (in_bytes : List ℕ) (p : Parser)
    → IsBounded p
    → idle p.phase ≡ false
    → keep ≤ p.limits.max_body_bytes - length p.message.body
    → IsBounded (body_gains taken keep in_bytes p)
      × (idle (body_gains taken keep in_bytes p).phase ≡ false)
      × ((body_gains taken keep in_bytes p).limits ≡ p.limits)
body_gains-IsBounded taken keep in_bytes p b i k =
    ground (arith, length-append p.message.body (take keep in_bytes), length-take keep in_bytes)

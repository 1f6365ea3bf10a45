-- ===== src/Http1/Parser/Accounted.antt =====
-- http1/parser.go, `Reserver`: each step of a parser keeps the account of what it retains.
pub mod Calls
pub mod Runs
use edge_observer.Prelude.{
  ℕ, zero, suc, ◌+◌, ◌-◌, ◌*◌, ◌≤◌, ◌<◌, ◌≡◌, refl, sym, ap, ◌∙◌, ◌≢◌, ◌⊎◌, inl, inr, Bool, true,
  false, not, ◌||◌, List, [], ◌∷◌, ◌++◌, Option, none, some, arith, ltb, leb, ◌==◌, if◌then◌else◌,
  length, take, drop, min, length-append, length-take,
}
use edge_observer.Http1.{Kind, request, response, unknown_kind, BodyEnd, Defect, Message, Header}
use edge_observer.Http1.Framing.{Frame, frame}
use edge_observer.Http1.Lines.{read_request_line, read_status_line, read_header, chunk_size}
use edge_observer.Http1.Parser.{
  Result, Charge, Call, granted, denied, released, Phase, Parser, Progress, Step, go_on, refuse,
  hand_over, take_line, drop_line, release,
}
use edge_observer.Http1.Parser.Scan.{Scanned, scan_from, scan_line}
use edge_observer.Http1.Parser.Steps.{
  begin, LineEnd, open_, ended, event, gained, grow_of, line_read, read_line, start_read,
  start_line, refuse_line, body_step, chunk_size_next, frame_as, frame_message, body_follows,
}
use edge_observer.Http1.Parser.Input.{
  fields_ended, field_read, field_counted, field_taken, field_line, trailer_read, trailer_taken,
  trailer_line, sized, size_line, body_gains, body, body_granted, chunk_end, after_line, read_in,
}
use edge_observer.Http1.Parser.Feed.{holed, hole_in}

-- The bytes and the messages that a reserver granted, and those that it was given back.
unfoldable pub granted_bytes : List Call → ℕ
granted_bytes [] = 0
granted_bytes (granted c ∷ cs) = c.bytes + granted_bytes cs
granted_bytes (_ ∷ cs) = granted_bytes cs

unfoldable pub granted_messages : List Call → ℕ
granted_messages [] = 0
granted_messages (granted c ∷ cs) = c.messages + granted_messages cs
granted_messages (_ ∷ cs) = granted_messages cs

unfoldable pub released_bytes : List Call → ℕ
released_bytes [] = 0
released_bytes (released c ∷ cs) = c.bytes + released_bytes cs
released_bytes (_ ∷ cs) = released_bytes cs

unfoldable pub released_messages : List Call → ℕ
released_messages [] = 0
released_messages (released c ∷ cs) = c.messages + released_messages cs
released_messages (_ ∷ cs) = released_messages cs

-- What was granted is what was given back, what is retained and what was handed over.
abbrev pub Balances : Charge → Parser → Type 0
Balances handed p =
    (granted_bytes p.reserver.calls
      ≡ released_bytes p.reserver.calls + p.charge.bytes + handed.bytes)
    × (granted_messages p.reserver.calls
        ≡ released_messages p.reserver.calls + p.charge.messages + handed.messages)

abbrev pub idle : Phase → Bool
idle Phase.between_messages = true
idle _ = false

-- And a message is in progress just where the parser is in one.
abbrev pub Owns : Charge → Parser → Type 0
Owns handed p = Balances handed p × (p.in_progress ≡ not (idle p.phase))

abbrev pub in_chunk : Phase → Bool
in_chunk Phase.in_chunk_data = true
in_chunk _ = false

abbrev pub in_line : Phase → Bool
in_line Phase.in_start_line = true
in_line Phase.in_fields = true
in_line Phase.in_chunk_size = true
in_line Phase.in_trailers = true
in_line _ = false

-- What the charge covers; a line is in progress only where one is read.
abbrev pub Covers : Parser → Type 0
Covers p =
    (length p.line ≤ p.charge.bytes)
    × (in_chunk p.phase ≡ true → p.chunk_kept ≤ p.charge.bytes)
    × (idle p.phase ≡ true → p.charge.bytes + p.charge.messages ≡ 0)
    × (in_line p.phase ≡ false → length p.line ≡ 0)

abbrev pub IsAccounted : Charge → Parser → Type 0
IsAccounted handed p = Owns handed p × Covers p

abbrev pub charge_of : Option Progress → Charge
charge_of none = record { bytes = 0; messages = 0 }
charge_of (some e) = e.charge

abbrev pub and_charge : Charge → Option Progress → Charge
and_charge handed e = record {
  bytes = handed.bytes + (charge_of e).bytes;
  messages = handed.messages + (charge_of e).messages;
}

-- A step hands over with a message what was retained for it.
abbrev pub StepKeeps : Charge → Step → Type 0
StepKeeps handed s = IsAccounted (and_charge handed s.event) s.parser

-- What a step that takes the line in progress needs: the charge covers the line.
abbrev pub Taken : Charge → List ℕ → Parser → Type 0
Taken handed line p = Owns handed p × (length line ≤ p.charge.bytes) × (length p.line ≡ 0)

pub begin-keeps :
    (h : Charge) (p : Parser)
    → p.phase ≡ Phase.between_messages
    → IsAccounted h p
    → StepKeeps h (begin p)
unfolding begin granted_bytes granted_messages released_bytes released_messages
begin-keeps h p e a = ground arith

pub refuse_line-keeps :
    (h : Charge) (d : Defect) (line : List ℕ) (p : Parser)
    → Taken h line p
    → StepKeeps h (refuse_line d line p)
unfolding granted_bytes granted_messages released_bytes released_messages
refuse_line-keeps h d line p t = ground arith

pub start_read-keeps :
    (h : Charge) (o : Option Message) (line : List ℕ) (p : Parser)
    → Taken h line p
    → idle p.phase ≡ false
    → StepKeeps h (start_read o line p)
start_read-keeps h none line p t i = refuse_line-keeps h Defect.malformed line p t
start_read-keeps h (some m) line p t i = ground arith

pub refuse-keeps : (h : Charge) (d : Defect) (p : Parser) → Owns h p → StepKeeps h (refuse d p)
refuse-keeps h d p t = ground arith

pub body_step-keeps :
    (h : Charge) (p : Parser) → IsAccounted h p → idle p.phase ≡ false → StepKeeps h (body_step p)
unfolding body_step
body_step-keeps h p a i = ground arith

pub frame_as-keeps :
    (h : Charge) (f : Frame) (p : Parser)
    → Owns h p
    → length p.line ≡ 0
    → idle p.phase ≡ false
    → StepKeeps h (frame_as f p)
unfolding frame_as body_step
frame_as-keeps h f p b l i = ground arith

pub frame_message-keeps :
    (h : Charge) (bodiless : Bool) (p : Parser)
    → Owns h p
    → length p.line ≡ 0
    → idle p.phase ≡ false
    → StepKeeps h (frame_message bodiless p)
unfolding frame_message
frame_message-keeps h bodiless p b l i = frame_as-keeps h (frame p.message p.kind bodiless) _ b l i

pub fields_ended-keeps :
    (h : Charge) (p : Parser)
    → Owns h p
    → length p.line ≡ 0
    → idle p.phase ≡ false
    → StepKeeps h (fields_ended p)
unfolding fields_ended
fields_ended-keeps h p b l i = ground (arith, frame_message-keeps h false p b l i)

pub field_read-keeps :
    (h : Charge) (o : Option Header) (line : List ℕ) (p : Parser)
    → Taken h line p
    → idle p.phase ≡ false
    → in_chunk p.phase ≡ false
    → StepKeeps h (field_read o line p)
field_read-keeps h none line p t i c = refuse_line-keeps h Defect.malformed line p t
field_read-keeps h (some m) line p t i c = ground arith

pub field_taken-keeps :
    (h : Charge) (line : List ℕ) (p : Parser)
    → Taken h line p
    → idle p.phase ≡ false
    → in_chunk p.phase ≡ false
    → StepKeeps h (field_taken line p)
unfolding field_counted
field_taken-keeps h [] p (b, u, l) i c = fields_ended-keeps h p b l i
field_taken-keeps h (x ∷ xs) p t i c = ground (
  arith,
  refuse_line-keeps h Defect.limit (x ∷ xs) p t,
  refuse_line-keeps h Defect.limit (x ∷ xs)
      (record p { header_bytes = p.header_bytes + length (x ∷ xs) }) t,
  field_read-keeps h (read_header (x ∷ xs)) (x ∷ xs)
      (record p { header_bytes = p.header_bytes + length (x ∷ xs) }) t i c,
)

pub trailer_read-keeps :
    (h : Charge) (o : Option Header) (line : List ℕ) (p : Parser)
    → Taken h line p
    → idle p.phase ≡ false
    → in_chunk p.phase ≡ false
    → StepKeeps h (trailer_read o line p)
trailer_read-keeps h none line p t i c = refuse_line-keeps h Defect.malformed line p t
trailer_read-keeps h (some m) line p t i c = ground arith

pub trailer_taken-keeps :
    (h : Charge) (line : List ℕ) (p : Parser)
    → Taken h line p
    → idle p.phase ≡ false
    → in_chunk p.phase ≡ false
    → StepKeeps h (trailer_taken line p)
unfolding trailer_taken
trailer_taken-keeps h [] p t i c = ground arith
trailer_taken-keeps h (x ∷ xs) p t i c = ground (
  arith,
  refuse_line-keeps h Defect.limit (x ∷ xs) p t,
  trailer_read-keeps h (read_header (x ∷ xs)) (x ∷ xs) p t i c,
)

pub drop_line-keeps :
    (h : Charge) (p : Parser) → Owns h p → length p.line ≤ p.charge.bytes → Owns h (drop_line p)
unfolding granted_bytes granted_messages released_bytes released_messages
drop_line-keeps h p b l = ground arith

pub sized-keeps :
    (h : Charge) (o : Option ℕ) (p : Parser)
    → Owns h p
    → length p.line ≡ 0
    → idle p.phase ≡ false
    → StepKeeps h (sized o p)
sized-keeps h none p b l i = refuse-keeps h Defect.malformed p b
sized-keeps h (some n) p b l i = ground arith

pub chunk_end-keeps :
    (h : Charge) (b : ℕ) (p : Parser)
    → IsAccounted h p
    → p.phase ≡ Phase.in_chunk_end
    → StepKeeps h (chunk_end b p)
unfolding chunk_end
chunk_end-keeps h b p a e = ground arith

pub body_gains-keeps :
    (h : Charge) (taken keep : ℕ) (in_bytes : List ℕ) (p : Parser)
    → (granted_bytes p.reserver.calls
        ≡ released_bytes p.reserver.calls + (p.charge.bytes + keep) + h.bytes)
    → (granted_messages p.reserver.calls
        ≡ released_messages p.reserver.calls + p.charge.messages + h.messages)
    → p.in_progress ≡ true
    → Covers p
    → idle p.phase ≡ false
    → IsAccounted h (body_gains taken keep in_bytes p)
      × (idle (body_gains taken keep in_bytes p).phase ≡ false)
body_gains-keeps h taken keep in_bytes p b m g c i = ground arith

pub body_granted-keeps :
    (h : Charge) (taken keep : ℕ) (in_bytes : List ℕ) (p : Parser)
    → IsAccounted h p
    → idle p.phase ≡ false
    → StepKeeps h (body_granted taken keep in_bytes p)
unfolding body_granted granted_bytes granted_messages released_bytes released_messages
body_granted-keeps h taken keep in_bytes p a i = ground arith

-- ===== src/Http1/Parser/Accounted/Calls.antt =====
-- http1/parser.go, `Reserver`: every call of a parser keeps the account of what it retains.

use edge_observer.Prelude.{
  ℕ, ◌+◌, ◌≤◌, ◌≡◌, refl, ap, Bool, true, false, List, arith, if◌then◌else◌, length, min,
  length-append, length-take,
}
use edge_observer.Http1.{Defect}
use edge_observer.Http1.Lines.{chunk_size, read_request_line, read_status_line}
use edge_observer.Http1.Parser.{Charge, Phase, Parser, Step, refuse, take_line, drop_line}
use edge_observer.Http1.Parser.Scan.{Scanned, scan_line}
use edge_observer.Http1.Parser.Steps.{
  LineEnd, open_, ended, event, gained, grow_of, line_grows, line_read, read_line, start_line,
}
use edge_observer.Http1.Parser.Input.{
  field_line, trailer_line, size_line, body, body_takes, body_keeps, after_line, first_byte,
  read_in,
}
use edge_observer.Http1.Parser.Feed.{holed, hole_in}
use edge_observer.Http1.Parser.Accounted.{
  granted_bytes, granted_messages, released_bytes, released_messages, idle, in_line, IsAccounted,
  StepKeeps, begin-keeps, start_read-keeps, refuse_line-keeps, refuse-keeps, body_step-keeps,
  field_taken-keeps, trailer_taken-keeps, drop_line-keeps, sized-keeps, chunk_end-keeps,
  body_granted-keeps,
}

abbrev LineKeeps : Charge → LineEnd → Type 0
LineKeeps h (open_ q) = IsAccounted h q
LineKeeps h (ended q) = IsAccounted h q × (idle q.phase ≡ false) × (in_line q.phase ≡ true)
LineKeeps h (event s) = StepKeeps h s

length-gained : (s : Scanned) (in_bytes : List ℕ) → length (gained s in_bytes) ≤ grow_of s
length-gained s in_bytes = ground (arith, length-take s.to in_bytes)

line_grows-keeps :
    (h : Charge) (s : Scanned) (in_bytes : List ℕ) (p : Parser)
    → IsAccounted h p
    → idle p.phase ≡ false
    → in_line p.phase ≡ true
    → LineKeeps h (line_grows s in_bytes p)
unfolding granted_bytes granted_messages released_bytes released_messages
line_grows-keeps h s in_bytes p a i c =
    ground (arith, a, length-append p.line (gained s in_bytes), length-gained s in_bytes)

line_read-keeps :
    (h : Charge) (s : Scanned) (in_bytes : List ℕ) (p : Parser)
    → IsAccounted h p
    → idle p.phase ≡ false
    → in_line p.phase ≡ true
    → LineKeeps h (line_read s in_bytes p)
line_read-keeps h s in_bytes p a i c = too_long s.too_long
  where
    looked : Parser
    looked = record p { examined = p.examined + s.consumed }

    too_long :
        (b : Bool)
        → LineKeeps h (
            if b
            then event
                (refuse Defect.limit (drop_line (record looked { next = p.next + s.consumed })))
            else line_grows s in_bytes looked)
    too_long true =
        refuse-keeps h Defect.limit (drop_line (record looked { next = p.next + s.consumed }))
          (drop_line-keeps h (record looked { next = p.next + s.consumed }) a.0 a.1.0)
    too_long false = line_grows-keeps h s in_bytes looked a i c

after_line-keeps :
    (h : Charge) (next : Parser → Step) (l : LineEnd)
    → ((q : Parser)
        → IsAccounted h q
        → idle q.phase ≡ false
        → in_line q.phase ≡ true
        → StepKeeps h (next q))
    → LineKeeps h l
    → StepKeeps h (after_line next l)
after_line-keeps h next (open_ q) k a = ground arith
after_line-keeps h next (ended q) k (a, i, c) = k q a i c
after_line-keeps h next (event s) k a = a

start_line-keeps :
    (h : Charge) (q : Parser)
    → IsAccounted h q
    → idle q.phase ≡ false
    → in_line q.phase ≡ true
    → StepKeeps h (start_line q)
unfolding start_line
start_line-keeps h q a i c = ground (
  arith,
  start_read-keeps h (read_request_line q.message q.line) q.line (take_line q),
  start_read-keeps h (read_status_line q.message q.line) q.line (take_line q),
  refuse_line-keeps h Defect.malformed q.line (take_line q),
)

field_line-keeps :
    (h : Charge) (q : Parser)
    → IsAccounted h q
    → idle q.phase ≡ false
    → in_line q.phase ≡ true
    → StepKeeps h (field_line q)
unfolding field_line
field_line-keeps h q (b, (l, k, m, o)) i c =
    field_taken-keeps h q.line (take_line q) (b, l, refl) i (ground arith)

trailer_line-keeps :
    (h : Charge) (q : Parser)
    → IsAccounted h q
    → idle q.phase ≡ false
    → in_line q.phase ≡ true
    → StepKeeps h (trailer_line q)
unfolding trailer_line
trailer_line-keeps h q (b, (l, k, m, o)) i c =
    trailer_taken-keeps h q.line (take_line q) (b, l, refl) i (ground arith)

size_line-keeps :
    (h : Charge) (q : Parser)
    → IsAccounted h q
    → idle q.phase ≡ false
    → in_line q.phase ≡ true
    → StepKeeps h (size_line q)
unfolding size_line
size_line-keeps h q (b, (l, k, m, o)) i c =
    sized-keeps h (chunk_size q.line) (drop_line q) (drop_line-keeps h q b l) refl (ground arith)

line_then :
    (h : Charge) (bs : List ℕ) (max : ℕ) (p : Parser) (next : Parser → Step)
    → ((q : Parser)
        → IsAccounted h q
        → idle q.phase ≡ false
        → in_line q.phase ≡ true
        → StepKeeps h (next q))
    → IsAccounted h p
    → idle p.phase ≡ false
    → in_line p.phase ≡ true
    → StepKeeps h (after_line next (read_line bs max p))
unfolding read_line
line_then h bs max p next k a i c =
    after_line-keeps h next _ k
      (line_read-keeps h (scan_line bs (length p.line) p.saw_cr max) bs p a i c)

pub read_in-keeps :
    (h : Charge) (f : Phase) (bs : List ℕ) (p : Parser)
    → p.phase ≡ f
    → IsAccounted h p
    → StepKeeps h (read_in f bs p)
unfolding read_in body
read_in-keeps h Phase.between_messages bs p e a = begin-keeps h p e a
read_in-keeps h Phase.in_start_line bs p e a =
    line_then h bs p.limits.max_start_line p start_line (start_line-keeps h) a (ap idle e)
      (ap in_line e)
read_in-keeps h Phase.in_fields bs p e a =
    line_then h bs p.limits.max_header_line p field_line (field_line-keeps h) a (ap idle e)
      (ap in_line e)
read_in-keeps h Phase.awaiting_answer bs p e a = ground arith
read_in-keeps h Phase.in_declared_body bs p e a =
    body_granted-keeps h (body_takes bs p) (body_keeps bs p) bs p a (ap idle e)
read_in-keeps h Phase.in_chunk_size bs p e a =
    line_then h bs p.limits.max_header_line p size_line (size_line-keeps h) a (ap idle e)
      (ap in_line e)
read_in-keeps h Phase.in_chunk_data bs p e a =
    body_granted-keeps h (body_takes bs p) (body_keeps bs p) bs p a (ap idle e)
read_in-keeps h Phase.in_chunk_end bs p e a = chunk_end-keeps h (first_byte bs) p a e
read_in-keeps h Phase.in_trailers bs p e a =
    line_then h bs p.limits.max_header_line p trailer_line (trailer_line-keeps h) a (ap idle e)
      (ap in_line e)

cut-keeps :
    (h : Charge) (p : Parser) → IsAccounted h p → StepKeeps h (refuse Defect.hole (drop_line p))
cut-keeps h p (b, (l, k, m, o)) = refuse-keeps h Defect.hole (drop_line p) (drop_line-keeps h p b l)

pub hole_in-keeps :
    (h : Charge) (f : Phase) (n : ℕ) (p : Parser)
    → p.phase ≡ f
    → IsAccounted h p
    → StepKeeps h (hole_in f n p)
unfolding hole_in
hole_in-keeps h Phase.between_messages n p e a = begin-keeps h p e a
hole_in-keeps h Phase.in_declared_body n p e a =
    body_step-keeps h (holed (min n p.remaining) p) (ground arith) (ground arith)
hole_in-keeps h Phase.in_chunk_data n p e a =
    body_step-keeps h (holed (min n p.remaining) p) (ground arith) (ground arith)
hole_in-keeps h Phase.in_start_line n p e a = cut-keeps h p a
hole_in-keeps h Phase.in_fields n p e a = cut-keeps h p a
hole_in-keeps h Phase.awaiting_answer n p e a = cut-keeps h p a
hole_in-keeps h Phase.in_chunk_size n p e a = cut-keeps h p a
hole_in-keeps h Phase.in_chunk_end n p e a = cut-keeps h p a
hole_in-keeps h Phase.in_trailers n p e a = cut-keeps h p a

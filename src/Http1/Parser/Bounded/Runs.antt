-- ===== src/Http1/Parser/Bounded/Runs.antt =====
-- http1/parser.go, `Limits`: what any calls of a parser keep of a message, and hand over.
use edge_observer.Prelude.{
  ℕ, ◌+◌, ◌-◌, ◌≤◌, ◌≡◌, refl, ap, Bool, true, false, not, List, arith, ◌==◌, if◌then◌else◌, length,
  drop, min,
}
use edge_observer.Stream.Parts.{Part, gap_none}
use edge_observer.Http1.{Defect, Limits}
use edge_observer.Http1.Parser.{called, granted, Phase, Parser, Step, refuse, take_line, drop_line}
use edge_observer.Http1.Parser.Scan.{Scanned, scan_line}
use edge_observer.Http1.Parser.Steps.{
  bytes_of, LineEnd, open_, ended, event, line_read, read_line, start_line, body_step,
}
use edge_observer.Http1.Parser.Input.{
  field_line, trailer_line, size_line, body_takes, body_keeps, body_gains, body, body_granted,
  after_line, first_byte, read_in, read_bytes,
}
use edge_observer.Http1.Parser.Feed.{holed, hole_in, read_hole, round}
use edge_observer.Http1.Parser.Accounted.{idle}
use edge_observer.Http1.Parser.Bounded.{
  size_of_fields, IsBounded, StepBounded, begin-bounded, body_step-bounded, start_line-bounded,
  field_taken-bounded, trailer_taken-bounded, size_line-bounded, chunk_end-bounded,
  body_gains-IsBounded,
}

body_gains_step :
    (taken keep : ℕ) (in_bytes : List ℕ) (p : Parser)
    → IsBounded p
    → idle p.phase ≡ false
    → keep ≤ p.limits.max_body_bytes - length p.message.body
    → StepBounded p.limits (body_step (body_gains taken keep in_bytes p))
body_gains_step taken keep in_bytes p b i k =
    let (w, j, e) = body_gains-IsBounded taken keep in_bytes p b i k in
    ground (arith, body_step-bounded (body_gains taken keep in_bytes p) w j, e)

body-bounded :
    (in_bytes : List ℕ) (p : Parser)
    → IsBounded p
    → idle p.phase ≡ false
    → StepBounded p.limits (body in_bytes p)
unfolding body body_granted
body-bounded in_bytes p b i = ground (
  arith,
  body_gains_step (body_takes in_bytes p) (body_keeps in_bytes p) in_bytes p b i (omega arith),
  body_gains_step (body_takes in_bytes p) (body_keeps in_bytes p) in_bytes
      (called p (granted (bytes_of (body_keeps in_bytes p)))) b i (omega arith),
)

abbrev LineBounded : Limits → LineEnd → Type 0
LineBounded l (open_ q) = IsBounded q × (idle q.phase ≡ false) × (q.limits ≡ l)
LineBounded l (ended q) = IsBounded q × (idle q.phase ≡ false) × (q.limits ≡ l)
LineBounded l (event s) = StepBounded l s

line_read-bounded :
    (s : Scanned) (in_bytes : List ℕ) (p : Parser)
    → IsBounded p
    → idle p.phase ≡ false
    → LineBounded p.limits (line_read s in_bytes p)
unfolding size_of_fields
line_read-bounded s in_bytes p b i = ground arith

after_line-bounded :
    (l : Limits) (next : Parser → Step) (e : LineEnd)
    → ((q : Parser) → IsBounded q → idle q.phase ≡ false → StepBounded q.limits (next q))
    → LineBounded l e
    → StepBounded l (after_line next e)
after_line-bounded l next (open_ q) k (b, i, e) = ground arith
after_line-bounded l next (ended q) k (b, i, e) = ground (arith, k q b i, e)
after_line-bounded l next (event s) k b = b

line_then :
    (bs : List ℕ) (max : ℕ) (p : Parser) (next : Parser → Step)
    → ((q : Parser) → IsBounded q → idle q.phase ≡ false → StepBounded q.limits (next q))
    → IsBounded p
    → idle p.phase ≡ false
    → StepBounded p.limits (after_line next (read_line bs max p))
unfolding read_line
line_then bs max p next k b i =
    after_line-bounded p.limits next (line_read (scan_line bs (length p.line) p.saw_cr max) bs p) k
      (line_read-bounded (scan_line bs (length p.line) p.saw_cr max) bs p b i)

field_line-bounded :
    (q : Parser) → IsBounded q → idle q.phase ≡ false → StepBounded q.limits (field_line q)
unfolding field_line
field_line-bounded q b i = field_taken-bounded q.line (take_line q) b i

trailer_line-bounded :
    (q : Parser) → IsBounded q → idle q.phase ≡ false → StepBounded q.limits (trailer_line q)
unfolding trailer_line
trailer_line-bounded q b i = trailer_taken-bounded q.line (take_line q) b i

read_in-bounded :
    (f : Phase) (bs : List ℕ) (p : Parser)
    → p.phase ≡ f
    → IsBounded p
    → StepBounded p.limits (read_in f bs p)
unfolding read_in
read_in-bounded Phase.between_messages bs p e b = begin-bounded p b
read_in-bounded Phase.in_start_line bs p e b =
    line_then bs p.limits.max_start_line p start_line start_line-bounded b (ap idle e)
read_in-bounded Phase.in_fields bs p e b =
    line_then bs p.limits.max_header_line p field_line field_line-bounded b (ap idle e)
read_in-bounded Phase.awaiting_answer bs p e b = ground arith
read_in-bounded Phase.in_declared_body bs p e b = body-bounded bs p b (ap idle e)
read_in-bounded Phase.in_chunk_size bs p e b =
    line_then bs p.limits.max_header_line p size_line size_line-bounded b (ap idle e)
read_in-bounded Phase.in_chunk_data bs p e b = body-bounded bs p b (ap idle e)
read_in-bounded Phase.in_chunk_end bs p e b = chunk_end-bounded (first_byte bs) p b (ap idle e)
read_in-bounded Phase.in_trailers bs p e b =
    line_then bs p.limits.max_header_line p trailer_line trailer_line-bounded b (ap idle e)

cut-bounded : (p : Parser) → IsBounded p → StepBounded p.limits (refuse Defect.hole (drop_line p))
unfolding size_of_fields
cut-bounded p b = ground arith

hole_in-bounded :
    (f : Phase) (n : ℕ) (p : Parser)
    → p.phase ≡ f
    → IsBounded p
    → StepBounded p.limits (hole_in f n p)
unfolding hole_in
hole_in-bounded Phase.between_messages n p e b = begin-bounded p b
hole_in-bounded Phase.in_declared_body n p e b =
    ground (arith, body_step-bounded (holed (min n p.remaining) p))
hole_in-bounded Phase.in_chunk_data n p e b =
    ground (arith, body_step-bounded (holed (min n p.remaining) p))
hole_in-bounded Phase.in_start_line n p e b = cut-bounded p b
hole_in-bounded Phase.in_fields n p e b = cut-bounded p b
hole_in-bounded Phase.awaiting_answer n p e b = cut-bounded p b
hole_in-bounded Phase.in_chunk_size n p e b = cut-bounded p b
hole_in-bounded Phase.in_chunk_end n p e b = cut-bounded p b
hole_in-bounded Phase.in_trailers n p e b = cut-bounded p b

pub round-bounded : (part : Part) (p : Parser) → IsBounded p → StepBounded p.limits (round part p)
unfolding round read_bytes read_hole
round-bounded part p b = by_gap (part.gap == gap_none)
  where
    by_gap :
        (g : Bool)
        → StepBounded p.limits (
            if not g
            then read_hole (part.offset + part.size - p.next) p
            else read_bytes (drop (p.next - part.offset) part.bytes) p)
    by_gap true = read_in-bounded p.phase (drop (p.next - part.offset) part.bytes) p refl b
    by_gap false = hole_in-bounded p.phase (part.offset + part.size - p.next) p refl b

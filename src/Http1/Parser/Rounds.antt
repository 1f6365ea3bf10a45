-- ===== src/Http1/Parser/Rounds.antt =====
-- http1/parser.go, `Feed`: each round of its loop reads on, so that the loop ends.
pub mod Total
use edge_observer.Prelude.{
  ℕ, zero, suc, ◌+◌, ◌-◌, ◌*◌, ◌≤◌, ◌<◌, ◌≡◌, refl, sym, ap, ◌∙◌, ◌≢◌, ◌⊎◌, inl, inr, Bool, true,
  false, not, ◌||◌, List, [], ◌∷◌, ◌++◌, Option, none, some, arith, ltb, leb, ◌==◌, if◌then◌else◌,
  length, drop, min, length-drop, Bool-cases, Option-cases,
}
use edge_observer.Stream.Parts.{Part, gap_none, validate}
use edge_observer.Stream.Parts
use edge_observer.Http1.{Kind, request, response, unknown_kind, BodyEnd, Message, Header}
use edge_observer.Http1.Framing.{Frame}
use edge_observer.Http1.Lines.{read_header, read_request_line, read_status_line, chunk_size}
use edge_observer.Http1.Parser.{
  Result, Phase, Parser, Progress, Step, go_on, refuse, hand_over, take_line, drop_line, release,
}
use edge_observer.Http1.Parser.Scan.{Scanned, scan_from, scan_line}
use edge_observer.Http1.Parser.Steps.{
  begin, LineEnd, open_, ended, event, line_read, read_line, start_read, start_line, body_step,
  chunk_size_next, frame_as, frame_message, body_follows,
}
use edge_observer.Http1.Parser.Input.{
  fields_ended, field_read, field_counted, field_taken, field_line, trailer_read, trailer_taken,
  trailer_line, sized, size_line, body, body_granted, chunk_end, after_line, read_in, read_bytes,
}
use edge_observer.Http1.Parser.Feed.{
  round, hole_in, read_hole, rounds, feed_admitted, feed, Outcome, admit,
}

-- The steps that follow a line read no further.
start_read-next :
    (o : Option Message) (line : List ℕ) (p : Parser) → (start_read o line p).parser.next ≡ p.next
start_read-next none line p = ground arith
start_read-next (some m) line p = refl

start_line-next : (p : Parser) → (start_line p).parser.next ≡ p.next
unfolding start_line
start_line-next p = ground arith

body_step-next : (p : Parser) → (body_step p).parser.next ≡ p.next
unfolding body_step
body_step-next p = ground arith

frame_as-next : (f : Frame) (p : Parser) → (frame_as f p).parser.next ≡ p.next
unfolding frame_as
frame_as-next f p = ground arith

fields_ended-next : (p : Parser) → (fields_ended p).parser.next ≡ p.next
unfolding fields_ended frame_message
fields_ended-next p = ground arith

field_taken-next : (line : List ℕ) (p : Parser) → (field_taken line p).parser.next ≡ p.next
unfolding field_counted
field_taken-next [] p = fields_ended-next p
field_taken-next (c ∷ cs) p = ground arith

trailer_taken-next : (line : List ℕ) (p : Parser) → (trailer_taken line p).parser.next ≡ p.next
unfolding trailer_taken
trailer_taken-next [] p = refl
trailer_taken-next (c ∷ cs) p = ground arith

size_line-next : (p : Parser) → (size_line p).parser.next ≡ p.next
unfolding size_line
size_line-next p = ground arith

scan_from_bounds :
    (max i size : ℕ) (saw_cr prepend_cr : Bool) (bs : List ℕ)
    → (i ≤ (scan_from max i size saw_cr prepend_cr bs).consumed)
      × ((scan_from max i size saw_cr prepend_cr bs).consumed ≤ i + length bs)
unfolding scan_from
scan_from_bounds max i size saw_cr prepend_cr [] = ground arith
scan_from_bounds max i size true prepend_cr (b ∷ bs) = ground (
  arith,
  scan_from_bounds max (i + 1) (size + 1) true (prepend_cr || i == 0) bs,
  scan_from_bounds max (i + 1) (size + 1 + 1) false (prepend_cr || i == 0) bs,
)
scan_from_bounds max i size false prepend_cr (b ∷ bs) = ground (
  arith,
  scan_from_bounds max (i + 1) size true prepend_cr bs,
  scan_from_bounds max (i + 1) (size + 1) false prepend_cr bs,
)

scan_line_bounds :
    (b : ℕ) (bs : List ℕ) (size : ℕ) (saw_cr : Bool) (max : ℕ)
    → (0 < (scan_line (b ∷ bs) size saw_cr max).consumed)
      × ((scan_line (b ∷ bs) size saw_cr max).consumed ≤ length (b ∷ bs))
unfolding scan_line scan_from
scan_line_bounds b bs size true max = ground (
  arith,
  scan_from_bounds max 1 (size + 1) true true bs,
  scan_from_bounds max 1 (size + 1 + 1) false true bs,
)
scan_line_bounds b bs size false max = ground (
  arith,
  scan_from_bounds max 1 size true false bs,
  scan_from_bounds max 1 (size + 1) false false bs,
)

abbrev pub happens : Step → Bool
happens s = elim s.event [ none ↦ false | some e ↦ true ]

-- What a line reads of `n` bytes.
abbrev LineReads : ℕ → Parser → LineEnd → Type 0
LineReads n p (open_ q) = (p.next < q.next) × (q.next ≤ p.next + n) × (q.phase ≡ p.phase)
LineReads n p (ended q) = (p.next < q.next) × (q.next ≤ p.next + n) × (q.phase ≡ p.phase)
LineReads n p (event s) =
    (p.next ≤ s.parser.next) × (s.parser.next ≤ p.next + n) × (happens s ≡ true)

line_read_lem :
    (s : Scanned) (in_bytes : List ℕ) (n : ℕ) (p : Parser)
    → 0 < s.consumed
    → s.consumed ≤ n
    → LineReads n p (line_read s in_bytes p)
line_read_lem s in_bytes n p l u = ground arith

read_line_lem :
    (b : ℕ) (bs : List ℕ) (max : ℕ) (p : Parser)
    → LineReads (length (b ∷ bs)) p (read_line (b ∷ bs) max p)
unfolding read_line
read_line_lem b bs max p =
    let (l, u) = scan_line_bounds b bs (length p.line) p.saw_cr max in
    line_read_lem (scan_line (b ∷ bs) (length p.line) p.saw_cr max) (b ∷ bs) (length (b ∷ bs)) p l u

-- How many rounds without reading may follow.
abbrev pub rank : Phase → ℕ
rank Phase.between_messages = 1
rank Phase.in_chunk_data = 1
rank _ = 0

-- A step over `n` bytes stays in them, and reads on or is one of the few that do not.
abbrev pub ReadsOn : ℕ → Parser → Step → Type 0
ReadsOn n p s =
    (p.next ≤ s.parser.next)
    × (s.parser.next ≤ p.next + n)
    × (happens s ≡ false → 2 * p.next + rank s.parser.phase < 2 * s.parser.next + rank p.phase)

pub rank-le : (f : Phase) → rank f ≤ 1
rank-le f = ground arith

after_line-ReadsOn :
    (n : ℕ) (p : Parser) (next : Parser → Step) (l : LineEnd)
    → ((q : Parser) → (next q).parser.next ≡ q.next)
    → LineReads n p l
    → ReadsOn n p (after_line next l)
after_line-ReadsOn n p next (open_ q) k (a, b, e) = ground (arith, rank-le q.phase)
after_line-ReadsOn n p next (ended q) k (a, b, e) =
    ground (arith, k q, rank-le (next q).parser.phase)
after_line-ReadsOn n p next (event s) k (a, b, e) = ground arith

header_line :
    (b : ℕ) (bs : List ℕ) (p : Parser) (next : Parser → Step)
    → ((q : Parser) → (next q).parser.next ≡ q.next)
    → ReadsOn (length (b ∷ bs)) p (after_line next (read_line (b ∷ bs) p.limits.max_header_line p))
header_line b bs p next k =
    after_line-ReadsOn (length (b ∷ bs)) p next (read_line (b ∷ bs) p.limits.max_header_line p) k
      (read_line_lem b bs p.limits.max_header_line p)

begin-ReadsOn : (n : ℕ) (p : Parser) → p.phase ≡ Phase.between_messages → ReadsOn n p (begin p)
unfolding begin
begin-ReadsOn n p e = ground arith

body-ReadsOn :
    (b : ℕ) (bs : List ℕ) (p : Parser)
    → (p.phase ≡ Phase.in_declared_body) ⊎ (p.phase ≡ Phase.in_chunk_data)
    → ReadsOn (length (b ∷ bs)) p (body (b ∷ bs) p)
unfolding body body_granted body_step
body-ReadsOn b bs p e = ground arith

chunk_end-ReadsOn : (n b : ℕ) (p : Parser) → 0 < n → ReadsOn n p (chunk_end b p)
unfolding chunk_end
chunk_end-ReadsOn n b p h = ground arith

field_line-next : (q : Parser) → (field_line q).parser.next ≡ q.next
unfolding field_line
field_line-next q = field_taken-next q.line (take_line q)

trailer_line-next : (q : Parser) → (trailer_line q).parser.next ≡ q.next
unfolding trailer_line
trailer_line-next q = trailer_taken-next q.line (take_line q)

pub read_in-ReadsOn :
    (f : Phase) (b : ℕ) (bs : List ℕ) (p : Parser)
    → p.phase ≡ f
    → ReadsOn (length (b ∷ bs)) p (read_in f (b ∷ bs) p)
unfolding read_in
read_in-ReadsOn Phase.between_messages b bs p e = begin-ReadsOn (length (b ∷ bs)) p e
read_in-ReadsOn Phase.in_start_line b bs p e =
    after_line-ReadsOn (length (b ∷ bs)) p start_line (read_line (b ∷ bs) p.limits.max_start_line p)
      start_line-next (read_line_lem b bs p.limits.max_start_line p)
read_in-ReadsOn Phase.in_fields b bs p e = header_line b bs p field_line field_line-next
read_in-ReadsOn Phase.awaiting_answer b bs p e = ground arith
read_in-ReadsOn Phase.in_declared_body b bs p e = body-ReadsOn b bs p (inl e)
read_in-ReadsOn Phase.in_chunk_size b bs p e = header_line b bs p size_line size_line-next
read_in-ReadsOn Phase.in_chunk_data b bs p e = body-ReadsOn b bs p (inr e)
read_in-ReadsOn Phase.in_chunk_end b bs p e = chunk_end-ReadsOn (length (b ∷ bs)) b p (omega arith)
read_in-ReadsOn Phase.in_trailers b bs p e = header_line b bs p trailer_line trailer_line-next

pub hole_in-ReadsOn :
    (f : Phase) (n : ℕ) (p : Parser) → 0 < n → p.phase ≡ f → ReadsOn n p (hole_in f n p)
unfolding hole_in body_step
hole_in-ReadsOn Phase.between_messages n p h e = begin-ReadsOn n p e
hole_in-ReadsOn Phase.in_declared_body n p h e = ground arith
hole_in-ReadsOn Phase.in_chunk_data n p h e = ground arith
hole_in-ReadsOn Phase.in_start_line n p h e = ground arith
hole_in-ReadsOn Phase.in_fields n p h e = ground arith
hole_in-ReadsOn Phase.awaiting_answer n p h e = ground arith
hole_in-ReadsOn Phase.in_chunk_size n p h e = ground arith
hole_in-ReadsOn Phase.in_chunk_end n p h e = ground arith
hole_in-ReadsOn Phase.in_trailers n p h e = ground arith

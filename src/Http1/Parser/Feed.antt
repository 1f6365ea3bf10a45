-- ===== src/Http1/Parser/Feed.antt =====
-- http1/parser.go: what a parser does with a part, an answer and the end of the input. The loop of
-- `Feed` runs on fuel, two rounds for each offset of the part and two more: a round that reads
-- no offset begins a message or ends a chunk, and the next one reads.
pub mod Finish
use edge_observer.Prelude.{
  ℕ, zero, suc, ◌+◌, ◌-◌, ◌*◌, Bool, true, false, not, ◌&&◌, ◌||◌, List, [], ◌∷◌, ◌++◌, Option,
  none, some, ltb, leb, ◌==◌, if◌then◌else◌, length, take, drop, min,
}
use edge_observer.Prelude.Bytes.{codes, equal_fold}
use edge_observer.Stream.Parts.{Part, gap_none}
use edge_observer.Stream.Parts
use edge_observer.Http1.{request, response, Defect, Message}
use edge_observer.Http1.Parser.{
  Result, stopped, Charge, Progress, Phase, Parser, release, take_line, drop_line, Step, go_on,
  return_result, without_message, hand_over, refuse,
}
use edge_observer.Http1.Parser.Steps.{begin, body_step, frame_message}
use edge_observer.Http1.Parser.Input.{read_bytes}

-- `hole`, of so many offsets.
abbrev pub holed : ℕ → Parser → Parser
holed taken p =
    let on = record p { next = p.next + taken; remaining = p.remaining - taken } in
    elim p.phase [
      | Phase.in_declared_body ↦ record on {
        message = record (p.message) { body_holed = p.message.body_holed + taken };
      }
      | _ ↦ record on { chunk_holed = p.chunk_holed + taken }
    ]

unfoldable pub hole_in : Phase → ℕ → Parser → Step
unfolding begin body_step
hole_in Phase.between_messages n p = begin p
hole_in Phase.in_declared_body n p = body_step (holed (min n p.remaining) p)
hole_in Phase.in_chunk_data n p = body_step (holed (min n p.remaining) p)
hole_in _ n p = refuse Defect.hole (drop_line p)

unfoldable pub read_hole : ℕ → Parser → Step
unfolding hole_in
read_hole n p = hole_in p.phase n p

-- One round of the loop of `Feed`.
unfoldable pub round : Part → Parser → Step
unfolding read_hole read_bytes
round part p =
    if not (part.gap == gap_none)
    then read_hole (part.offset + part.size - p.next) p
    else read_bytes (drop (p.next - part.offset) part.bytes) p

-- Why a part is not taken.
pub data Fault : Type 0 where
  after_end wrong_offset : Fault
  invalid : Parts.Fault → Fault

-- `admit`.
unfoldable pub admit : Part → Parser → Option Fault
unfolding Parts.validate
admit part p = if p.ended then some after_end else elim (Parts.validate part) [
  | some f ↦ some (invalid f)
  | none ↦ if p.started && not (part.offset == p.next) then some wrong_offset else none
]

-- A parser and what the call returns.
pub record Fed : Type 0 where
  pub parser : Parser
  pub progress : Progress

abbrev pub used_up : Part → Result → Parser → Fed
used_up part r p = record {
  parser = p;
  progress = record {
    consumed = part.size;
    result = r;
    message = none;
    charge = record { bytes = 0; messages = 0 };
  };
}

-- What follows the stop in the part is unplaced.
abbrev pub passed : Part → Result → Parser → Parser
passed part r p = if stopped r then record p { next = part.offset + part.size } else p

abbrev pub returned : Part → Progress → Parser → Fed
returned part e p = record {
  parser = passed part e.result p;
  progress = record e { consumed = (passed part e.result p).next - part.offset };
}

-- The loop of `Feed`; none where the fuel runs out.
unfoldable pub rounds : ℕ → Part → Parser → Option Fed
rounds zero part p = none
rounds (suc fuel) part p =
    let s = round part p in
    let more = rounds fuel part s.parser in
    if not (ltb p.next (part.offset + part.size))
    then some (used_up part Result.need_input p)
    else elim s.event [ none ↦ more | some e ↦ some (returned part e s.parser) ]

-- The state at the first part.
abbrev pub started_at : Part → Parser → Parser
started_at part p =
    if p.started then p else record p { started = true; next = part.offset; settled = part.offset }

abbrev pub is_open : Result → Bool
is_open Result.need_input = true
is_open _ = false

abbrev pub is_waiting : Phase → Bool
is_waiting Phase.awaiting_answer = true
is_waiting _ = false

abbrev pub still_waiting : Parser → Fed
still_waiting p = record {
  parser = p;
  progress = record {
    consumed = 0;
    result = Result.need_request;
    message = none;
    charge = record { bytes = 0; messages = 0 };
  };
}

-- `Feed`, of a part that is admitted.
unfoldable pub feed_admitted : Part → Parser → Option Fed
unfolding rounds
feed_admitted part p =
    if not (is_open p.stop)
    then some (used_up part p.stop (record p { next = p.next + part.size }))
    else if is_waiting p.phase
    then some (still_waiting p)
    else rounds (2 * part.size + 2) part p

-- What `Feed` returns: an error and no change, or progress.
pub data Outcome : Type 0 where
  not_taken : Fault → Outcome
  fed : Fed → Outcome

-- `Feed`; none where the loop's fuel runs out.
unfoldable pub feed : Part → Parser → Option Outcome
unfolding admit feed_admitted
feed part p = elim (admit part p) [
  | some f ↦ some (not_taken f)
  | none ↦ elim (feed_admitted part (started_at part p)) [ none ↦ none | some r ↦ some (fed r) ]
]

-- `Answer`; none where no response waits.
unfoldable pub answer : List ℕ → Parser → Option Step
unfolding frame_message equal_fold
answer method p =
    if not (is_waiting p.phase) || p.ended
    then none
    else some (frame_message (equal_fold method (codes "HEAD")) p)

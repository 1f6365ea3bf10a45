-- ===== src/Http1/Parser/Accounted/Runs.antt =====
-- http1/parser.go, `Reserver`: the account over any calls of `Feed`, `Answer` and `End`.
use edge_observer.Prelude.{
  ℕ, zero, suc, ◌+◌, ◌-◌, ◌*◌, ◌≡◌, refl, Bool, true, false, not, List, [], ◌∷◌, Option, none, some,
  arith, ltb, ◌==◌, if◌then◌else◌, length, drop,
}
use edge_observer.Prelude.Bytes.{codes, equal_fold}
use edge_observer.Stream.Parts.{Part, gap_none}
use edge_observer.Http1.{Kind, Message, Limits}
use edge_observer.Http1.Framing.{Frame, frame}
use edge_observer.Http1.Parser.{
  Result, Charge, no_charge, add_charge, Call, Parser, new_parser, Progress, Step,
}
use edge_observer.Http1.Parser.Steps.{body_step, frame_as, frame_message}
use edge_observer.Http1.Parser.Input.{read_bytes}
use edge_observer.Http1.Parser.Feed.{
  read_hole, round, Fed, used_up, returned, rounds, feed_admitted, started_at, admit, Fault,
  Outcome, not_taken, fed, feed, answer, is_waiting,
}
use edge_observer.Http1.Parser.Feed.Finish.{
  cut_off, cut_off_over, finish_open, finish_answered, finish, nothing_more,
}
use edge_observer.Http1.Parser.Accounted.{
  granted_bytes, granted_messages, released_bytes, released_messages, Balances, Owns, IsAccounted,
  charge_of, and_charge, StepKeeps, frame_message-keeps,
}
use edge_observer.Http1.Parser.Accounted.Calls.{read_in-keeps, hole_in-keeps}

round-keeps : (h : Charge) (part : Part) (p : Parser) → IsAccounted h p → StepKeeps h (round part p)
unfolding round read_bytes read_hole
round-keeps h part p a = by_gap (part.gap == gap_none)
  where
    by_gap :
        (b : Bool)
        → StepKeeps h (
            if not b
            then read_hole (part.offset + part.size - p.next) p
            else read_bytes (drop (p.next - part.offset) part.bytes) p)
    by_gap true = read_in-keeps h p.phase (drop (p.next - part.offset) part.bytes) p refl a
    by_gap false = hole_in-keeps h p.phase (part.offset + part.size - p.next) p refl a

-- With the message that a call returns goes its charge.
abbrev FedKeeps : Charge → Fed → Type 0
FedKeeps h r = IsAccounted (add_charge h r.progress.charge) r.parser

abbrev SomeKeeps : Charge → Option Fed → Type 0
SomeKeeps h none = Unit
SomeKeeps h (some r) = FedKeeps h r

event-keeps :
    (h : Charge) (part : Part) (q : Parser) (e : Option Progress) (more : Option Fed)
    → IsAccounted (and_charge h e) q
    → (e ≡ none → SomeKeeps h more)
    → SomeKeeps h (elim e [ none ↦ more | some e ↦ some (returned part e q) ])
event-keeps h part q none more a m = m refl
event-keeps h part q (some e) more a m = ground arith

unless-keeps :
    (h : Charge) (b : Bool) (r : Fed) (o : Option Fed)
    → FedKeeps h r
    → SomeKeeps h o
    → SomeKeeps h (if not b then some r else o)
unless-keeps h true r o f s = s
unless-keeps h false r o f s = f

rounds-keeps :
    (h : Charge) (fuel : ℕ) (part : Part) (p : Parser)
    → IsAccounted h p
    → SomeKeeps h (rounds fuel part p)
unfolding rounds
rounds-keeps h zero part p a = tt
rounds-keeps h (suc fuel) part p a =
    unless-keeps h (ltb p.next (part.offset + part.size)) (used_up part Result.need_input p) _
      (ground arith)
      (event-keeps h part (round part p).parser (round part p).event
        (rounds fuel part (round part p).parser) (round-keeps h part p a)
        (λ e.
          rounds-keeps h fuel part (round part p).parser
            (ground (arith, e, round-keeps h part p a))))

feed_admitted-keeps :
    (h : Charge) (part : Part) (p : Parser) → IsAccounted h p → SomeKeeps h (feed_admitted part p)
unfolding feed_admitted
feed_admitted-keeps h part p a = ground (arith, rounds-keeps h (2 * part.size + 2) part p a)

frame_waiting-keeps :
    (h : Charge) (bodiless : Bool) (p : Parser)
    → IsAccounted h p
    → is_waiting p.phase ≡ true
    → StepKeeps h (frame_message bodiless p)
frame_waiting-keeps h bodiless p a w =
    frame_message-keeps h bodiless p a.0 (ground arith) (ground arith)

cut_off-keeps :
    (h : Charge) (p : Parser) → IsAccounted h p → Owns h (cut_off p) × (length (cut_off p).line ≡ 0)
unfolding granted_bytes granted_messages released_bytes released_messages
cut_off-keeps h p a = ground arith

finish_open-keeps : (h : Charge) (p : Parser) → IsAccounted h p → FedKeeps h (finish_open p)
finish_open-keeps h p a = by_message p.in_progress
  where
    on : Parser
    on = record p { ended = true }

    by_message : (b : Bool) → FedKeeps h (if b then cut_off_over (cut_off on) else nothing_more on)
    by_message true = ground (arith, cut_off-keeps h on a)
    by_message false = ground arith

-- A call of the parser's user, what it hands over, and the state it leaves.
pub data Move : Type 0 where
  feed_part : Part → Move
  answer_with : List ℕ → Move
  end_input : Move

abbrev pub fed_moves : Option Outcome → Parser → Charge × Parser
fed_moves (some (fed r)) p = (r.progress.charge, r.parser)
fed_moves _ p = (no_charge, p)

abbrev pub step_moves : Option Step → Parser → Charge × Parser
step_moves none p = (no_charge, p)
step_moves (some s) p = (charge_of s.event, s.parser)

unfoldable pub move : Move → Parser → Charge × Parser
unfolding feed answer finish
move (feed_part part) p = fed_moves (feed part p) p
move (answer_with method) p = step_moves (answer method p) p
move end_input p = ((finish p).progress.charge, (finish p).parser)

-- The moves in turn, on from what was handed over before them.
unfoldable pub moves : List Move → Charge → Parser → Charge × Parser
unfolding move
moves [] h p = (h, p)
moves (m ∷ ms) h p = moves ms (add_charge h (move m p).0) (move m p).1

feed_some-keeps :
    (h : Charge) (o : Option Fed) (p : Parser)
    → IsAccounted h p
    → SomeKeeps h o
    → IsAccounted
        (add_charge h (fed_moves (elim o [ none ↦ none | some r ↦ some (fed r) ]) p).0)
        (fed_moves (elim o [ none ↦ none | some r ↦ some (fed r) ]) p).1
feed_some-keeps h none p a s = ground arith
feed_some-keeps h (some r) p a s = s

feed-keeps :
    (h : Charge) (part : Part) (p : Parser)
    → IsAccounted h p
    → IsAccounted (add_charge h (fed_moves (feed part p) p).0) (fed_moves (feed part p) p).1
unfolding feed
feed-keeps h part p a = by_fault (admit part p)
  where
    out : Option Fault → Option Outcome
    out o = elim o [
      | some f ↦ some (not_taken f)
      | none ↦ elim (feed_admitted part (started_at part p)) [ none ↦ none | some r ↦ some (fed r) ]
    ]

    by_fault :
        (o : Option Fault)
        → IsAccounted (add_charge h (fed_moves (out o) p).0) (fed_moves (out o) p).1
    by_fault (some f) = ground arith
    by_fault none =
        feed_some-keeps h (feed_admitted part (started_at part p)) p a
          (feed_admitted-keeps h part (started_at part p) (ground arith))

answer-keeps :
    (h : Charge) (method : List ℕ) (p : Parser)
    → IsAccounted h p
    → IsAccounted
        (add_charge h (step_moves (answer method p) p).0)
        (step_moves (answer method p) p).1
unfolding answer
answer-keeps h method p a =
    ground (arith, frame_waiting-keeps h (equal_fold method (codes "HEAD")) p a)

-- An event with no message has no charge.
abbrev Uncharged : Option Progress → Type 0
Uncharged none = Unit
Uncharged (some e) = e.message ≡ none → (e.charge.bytes ≡ 0) × (e.charge.messages ≡ 0)

frame_as-Uncharged : (f : Frame) (p : Parser) → Uncharged (frame_as f p).event
unfolding frame_as body_step
frame_as-Uncharged f p = ground arith

frame_message-Uncharged : (b : Bool) (p : Parser) → Uncharged (frame_message b p).event
unfolding frame_message
frame_message-Uncharged b p =
    frame_as-Uncharged (frame p.message p.kind b)
      (record p { message = record (p.message) { framing = (frame p.message p.kind b).framing } })

finish_answered-keeps :
    (h : Charge) (q : Parser) (e : Option Progress)
    → IsAccounted (and_charge h e) q
    → Uncharged e
    → FedKeeps h (finish_answered (record { parser = q; event = e }))
finish_answered-keeps h q none a u = finish_open-keeps h q (ground arith)
finish_answered-keeps h q (some e) a u = by_message e.message refl
  where
    by_message :
        (o : Option Message)
        → e.message ≡ o
        → FedKeeps h (elim o [
          | some m ↦ record {
            parser = record q { ended = true };
            progress = record e { result = Result.end_ };
          }
          | none ↦ finish_open q
        ])
    by_message (some m) x = a
    by_message none x = finish_open-keeps h q (ground (arith, u x))

finish-keeps : (h : Charge) (p : Parser) → IsAccounted h p → FedKeeps h (finish p)
unfolding finish
finish-keeps h p a = by_ended p.ended
  where
    by_waiting :
        (b : Bool)
        → is_waiting p.phase ≡ b
        → FedKeeps h (if b then finish_answered (frame_message false p) else finish_open p)
    by_waiting true w =
        finish_answered-keeps h (frame_message false p).parser (frame_message false p).event
          (frame_waiting-keeps h false p a w) (frame_message-Uncharged false p)
    by_waiting false w = finish_open-keeps h p a

    by_ended :
        (b : Bool)
        → FedKeeps h (
            if b
            then nothing_more p
            else if is_waiting p.phase
            then finish_answered (frame_message false p)
            else finish_open p)
    by_ended true = ground arith
    by_ended false = by_waiting (is_waiting p.phase) refl

move-keeps :
    (h : Charge) (m : Move) (p : Parser)
    → IsAccounted h p
    → IsAccounted (add_charge h (move m p).0) (move m p).1
unfolding move
move-keeps h (feed_part part) p a = feed-keeps h part p a
move-keeps h (answer_with method) p a = answer-keeps h method p a
move-keeps h end_input p a = finish-keeps h p a

moves-keeps :
    (ms : List Move) (h : Charge) (p : Parser)
    → IsAccounted h p
    → IsAccounted (moves ms h p).0 (moves ms h p).1
unfolding moves
moves-keeps [] h p a = a
moves-keeps (m ∷ ms) h p a = moves-keeps ms _ (move m p).1 (move-keeps h m p a)

new_parser-IsAccounted :
    (kind : Kind) (limits : Limits) (grants : List Call → Charge → Bool)
    → IsAccounted no_charge (new_parser kind limits (record { grants = grants; calls = [] }))
unfolding new_parser granted_bytes granted_messages released_bytes released_messages
new_parser-IsAccounted kind limits grants = ground arith

-- After any calls of a new parser, what its reserver has granted, less what it was given back, is
-- what the parser retains and every charge that it has handed over.
pub moves-Balances :
    (ms : List Move) (kind : Kind) (limits : Limits) (grants : List Call → Charge → Bool)
    → Balances
        (moves ms no_charge (new_parser kind limits (record { grants = grants; calls = [] }))).0
        (moves ms no_charge (new_parser kind limits (record { grants = grants; calls = [] }))).1
moves-Balances ms kind limits grants =
    (moves-keeps ms no_charge _ (new_parser-IsAccounted kind limits grants)).0.0

-- ===== src/Http1/Parser/Bounded/Kept.antt =====
-- http1/parser.go, `Limits`: over any calls of `Feed`, `Answer` and `End`, the message in progress and
-- each that is handed over stay within the parser's limits.
use edge_observer.Prelude.{
  ℕ, zero, suc, ◌+◌, ◌-◌, ◌*◌, ◌≡◌, refl, ◌∙◌, Bool, true, false, not, List, [], ◌∷◌, Option, none,
  some, arith, ltb, if◌then◌else◌, length, length-take,
}
use edge_observer.Prelude.Bytes.{codes, equal_fold}
use edge_observer.Stream.Parts.{Part}
use edge_observer.Http1.{Kind, Message, Limits, or_defaults}
use edge_observer.Http1.Parser.{
  Result, Charge, no_charge, add_charge, Call, Parser, new_parser, Progress, Step,
}
use edge_observer.Http1.Parser.Steps.{frame_message}
use edge_observer.Http1.Parser.Feed.{
  round, Fed, used_up, returned, rounds, feed_admitted, started_at, admit, Fault, Outcome,
  not_taken, fed, feed, answer, is_waiting,
}
use edge_observer.Http1.Parser.Feed.Finish.{
  cut_off, cut_off_over, finish_open, finish_answered, finish, nothing_more,
}
use edge_observer.Http1.Parser.Accounted.Runs.{
  Move, feed_part, answer_with, end_input, fed_moves, step_moves, move, moves,
}
use edge_observer.Http1.Parser.Bounded.{
  size_of_fields, Within, EventWithin, IsBounded, StepBounded, frame_message-bounded,
}
use edge_observer.Http1.Parser.Bounded.Runs.{round-bounded}

abbrev FedBounded : Limits → Fed → Type 0
FedBounded l r = IsBounded r.parser × (r.parser.limits ≡ l) × EventWithin l (some r.progress)

abbrev SomeBounded : Limits → Option Fed → Type 0
SomeBounded l none = Unit
SomeBounded l (some r) = FedBounded l r

at_limits : {l m : Limits} (o : Option Fed) → l ≡ m → SomeBounded l o → SomeBounded m o
at_limits o e s = rw e at s

same_limits_lem : {l k : Limits} (m : Message) → l ≡ k → Within l m → Within k m
same_limits_lem m e w = rw e at w

event-bounded :
    (l : Limits) (part : Part) (q : Parser) (e : Option Progress) (more : Option Fed)
    → IsBounded q
    → q.limits ≡ l
    → EventWithin l e
    → (e ≡ none → SomeBounded l more)
    → SomeBounded l (elim e [ none ↦ more | some e ↦ some (returned part e q) ])
event-bounded l part q none more b i w m = m refl
event-bounded l part q (some e) more b i w m = ground arith

unless-bounded :
    (l : Limits) (b : Bool) (r : Fed) (o : Option Fed)
    → FedBounded l r
    → SomeBounded l o
    → SomeBounded l (if not b then some r else o)
unless-bounded l true r o f s = s
unless-bounded l false r o f s = f

rounds-bounded :
    (fuel : ℕ) (part : Part) (p : Parser) → IsBounded p → SomeBounded p.limits (rounds fuel part p)
unfolding rounds
rounds-bounded zero part p b = tt
rounds-bounded (suc fuel) part p b =
    let (w, i, e) = round-bounded part p b in
    unless-bounded p.limits (ltb p.next (part.offset + part.size))
      (used_up part Result.need_input p) _ (b, refl, (λ m x. cc))
      (event-bounded p.limits part (round part p).parser (round part p).event
        (rounds fuel part (round part p).parser) w i e
        (λ x.
          at_limits (rounds fuel part (round part p).parser) i
            (rounds-bounded fuel part (round part p).parser w)))

feed_admitted-bounded :
    (part : Part) (p : Parser) → IsBounded p → SomeBounded p.limits (feed_admitted part p)
unfolding feed_admitted
feed_admitted-bounded part p b = ground (arith, rounds-bounded (2 * part.size + 2) part p b)

-- The message that a call returns.
abbrev pub outcome_message : Option Outcome → Option Message
outcome_message (some (fed r)) = r.progress.message
outcome_message _ = none

abbrev pub event_message : Option Progress → Option Message
event_message none = none
event_message (some e) = e.message

abbrev pub step_message : Option Step → Option Message
step_message none = none
step_message (some s) = event_message s.event

unfoldable pub message_of : Move → Parser → Option Message
unfolding feed answer finish
message_of (feed_part part) p = outcome_message (feed part p)
message_of (answer_with method) p = step_message (answer method p)
message_of end_input p = (finish p).progress.message

-- What a call leaves and returns is within limits.
abbrev MoveBounded : Limits → Option Message → Parser → Type 0
MoveBounded l o q = IsBounded q × (q.limits ≡ l) × ((m : Message) → o ≡ some m → Within l m)

frame_waiting-bounded :
    (bodiless : Bool) (p : Parser)
    → IsBounded p
    → is_waiting p.phase ≡ true
    → StepBounded p.limits (frame_message bodiless p)
frame_waiting-bounded bodiless p b w = frame_message-bounded bodiless p b (ground arith)

feed_some-bounded :
    (p : Parser) (o : Option Fed)
    → IsBounded p
    → SomeBounded p.limits o
    → MoveBounded p.limits
        (outcome_message (elim o [ none ↦ none | some r ↦ some (fed r) ]))
        (fed_moves (elim o [ none ↦ none | some r ↦ some (fed r) ]) p).1
feed_some-bounded p none b s = (b, refl, (λ m x. cc))
feed_some-bounded p (some r) b s = s

feed-bounded :
    (part : Part) (p : Parser)
    → IsBounded p
    → MoveBounded p.limits (outcome_message (feed part p)) (fed_moves (feed part p) p).1
unfolding feed
feed-bounded part p b = by_fault (admit part p)
  where
    out : Option Fault → Option Outcome
    out o = elim o [
      | some f ↦ some (not_taken f)
      | none ↦ elim (feed_admitted part (started_at part p)) [ none ↦ none | some r ↦ some (fed r) ]
    ]

    by_fault :
        (o : Option Fault) → MoveBounded p.limits (outcome_message (out o)) (fed_moves (out o) p).1
    by_fault (some f) = (b, refl, (λ m x. cc))
    by_fault none = feed_some-bounded p (feed_admitted part (started_at part p)) b (
        at_limits (feed_admitted part (started_at part p)) (ground arith)
          (feed_admitted-bounded part (started_at part p) (ground arith)))

answer-bounded :
    (method : List ℕ) (p : Parser)
    → IsBounded p
    → MoveBounded p.limits (step_message (answer method p)) (step_moves (answer method p) p).1
unfolding answer
answer-bounded method p b =
    ground (arith, frame_waiting-bounded (equal_fold method (codes "HEAD")) p b)

cut_off-bounded :
    (p : Parser)
    → IsBounded p
    → Within p.limits (cut_off p).message × ((cut_off p).limits ≡ p.limits)
cut_off-bounded p b =
    ground (arith, length-take (length p.message.body - p.chunk_kept) p.message.body)

finish_open-bounded : (p : Parser) → IsBounded p → FedBounded p.limits (finish_open p)
unfolding size_of_fields
finish_open-bounded p b = by_message p.in_progress
  where
    on : Parser
    on = record p { ended = true }

    by_message :
        (g : Bool) → FedBounded p.limits (if g then cut_off_over (cut_off on) else nothing_more on)
    by_message true = ground (arith, cut_off-bounded on b)
    by_message false = ground arith

new_parser-IsBounded :
    (kind : Kind) (limits : Limits) (grants : List Call → Charge → Bool)
    → IsBounded (new_parser kind limits (record { grants = grants; calls = [] }))
unfolding new_parser size_of_fields
new_parser-IsBounded kind limits grants = ground arith

finish_answered-bounded :
    (l : Limits) (q : Parser) (e : Option Progress)
    → IsBounded q
    → q.limits ≡ l
    → EventWithin l e
    → FedBounded l (finish_answered (record { parser = q; event = e }))
finish_answered-bounded l q none b i w =
    at_limits (some (finish_open q)) i (finish_open-bounded q b)
finish_answered-bounded l q (some e) b i w = by_message e.message refl
  where
    by_message :
        (o : Option Message)
        → e.message ≡ o
        → FedBounded l (elim o [
          | some m ↦ record {
            parser = record q { ended = true };
            progress = record e { result = Result.end_ };
          }
          | none ↦ finish_open q
        ])
    by_message (some m) x = (b, i, w)
    by_message none x = at_limits (some (finish_open q)) i (finish_open-bounded q b)

finish-bounded : (p : Parser) → IsBounded p → FedBounded p.limits (finish p)
unfolding finish
finish-bounded p b = by_ended p.ended
  where
    by_waiting :
        (g : Bool)
        → is_waiting p.phase ≡ g
        → FedBounded p.limits (if g then finish_answered (frame_message false p) else finish_open p)
    by_waiting true x =
        let (w, i, e) = frame_waiting-bounded false p b x in
        finish_answered-bounded p.limits (frame_message false p).parser
          (frame_message false p).event w i e
    by_waiting false x = finish_open-bounded p b

    by_ended :
        (g : Bool)
        → FedBounded p.limits (
            if g
            then nothing_more p
            else if is_waiting p.phase
            then finish_answered (frame_message false p)
            else finish_open p)
    by_ended true = (b, refl, (λ m x. cc))
    by_ended false = by_waiting (is_waiting p.phase) refl

move-bounded :
    (m : Move) (p : Parser) → IsBounded p → MoveBounded p.limits (message_of m p) (move m p).1
unfolding move message_of
move-bounded (feed_part part) p b = feed-bounded part p b
move-bounded (answer_with method) p b = answer-bounded method p b
move-bounded end_input p b = finish-bounded p b

moves-IsBounded :
    (ms : List Move) (h : Charge) (p : Parser)
    → IsBounded p
    → IsBounded (moves ms h p).1 × ((moves ms h p).1.limits ≡ p.limits)
unfolding moves
moves-IsBounded [] h p b = (b, refl)
moves-IsBounded (m ∷ ms) h p b =
    let (w, i, e) = move-bounded m p b in
    let (x, j) = moves-IsBounded ms (add_charge h (move m p).0) (move m p).1 w in (x, j ∙ i)

new_parser-limits :
    (kind : Kind) (limits : Limits) (grants : List Call → Charge → Bool)
    → (new_parser kind limits (record { grants = grants; calls = [] })).limits ≡ or_defaults limits
unfolding new_parser
new_parser-limits kind limits grants = refl

-- After any calls of a new parser, the message in progress, and the message that one more call
-- returns, have no more field lines, bytes of fields, trailers and body bytes than its limits say.
pub moves-Within :
    (ms : List Move) (m : Move) (kind : Kind) (limits : Limits) (grants : List Call → Charge → Bool)
    → let p =
        (moves ms no_charge (new_parser kind limits (record { grants = grants; calls = [] }))).1 in
      Within (or_defaults limits) p.message
      × ((n : Message) → message_of m p ≡ some n → Within (or_defaults limits) n)
moves-Within ms m kind limits grants =
    let p = new_parser kind limits (record { grants = grants; calls = [] }) in
    let (b, i) = moves-IsBounded ms no_charge p (new_parser-IsBounded kind limits grants) in
    let (x, j, w) = move-bounded m (moves ms no_charge p).1 b in
    let e = i ∙ new_parser-limits kind limits grants in
    (same_limits_lem (moves ms no_charge p).1.message e b.0, (λ n s. same_limits_lem n e (w n s)))

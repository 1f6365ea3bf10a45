-- ===== src/Attachment.antt =====
-- attachment/group_lifecycle.go and the calls of attachment/group.go: the end of a run over several
-- owners. An owner's call runs in a goroutine of its own: `start` begins it, `finish` is the moment at
-- which the goroutine closes `done`, and `wait` is a wait that returns, as the call is done or else
-- the context is. Times, names and the texts of failures are left out; `errors.Join` is not nil just
-- where there was a failure. An int is the uint64 of the same bits.
mod Tests
pub mod Calls
pub mod Sums
pub mod Sound
use edge_observer.Prelude.{
  ℕ, ◌+◌, Bool, true, false, not, ◌&&◌, ◌||◌, List, [], ◌∷◌, Option, none, some, ◌==◌,
  if◌then◌else◌, is_none, map, add64,
}
use edge_observer.Connection.{Count, counted, uncounted, Counters, add_count}
use edge_observer.Connection.Seal.{Withdrawal, Drained}

-- `call`: how often it ran its owner, and what it holds once it is done.
pub record Call (A : Type 0) : Type 0 where
  pub runs : ℕ
  pub done : Option (A × Bool)

module _ {A : Type 0} where
  abbrev pub new_call : Call A
  new_call = record { runs = 0; done = none }

  -- `call.start`: `once.Do`.
  unfoldable pub start : Call A → Call A
  start c = if c.runs == 0 then record c { runs = c.runs + 1 } else c

  -- The end of the goroutine, if there is one that has not ended.
  unfoldable pub finish : A → Bool → Call A → Call A
  finish value err c =
      if not (c.runs == 0) && is_none c.done then record c { done = some (value, err) } else c

  -- `call.wait`: what is done, or else the zero value and the context's error.
  unfoldable pub wait : A → Call A → A × Bool
  wait zero_value c = elim c.done [ some (value, err) ↦ (value, err) | none ↦ (zero_value, true) ]

-- `owner`.
pub record Owner : Type 0 where
  pub close : Call (Unit {0})
  pub stop : Call Withdrawal
  pub drain : Call Drained

abbrev no_withdrawal : Withdrawal
no_withdrawal = record { instances = 0; complete = false }

abbrev no_drained : Drained
no_drained = record { delivered = uncounted; outstanding = uncounted; complete = false }

-- The loops that start each owner's call.
unfoldable pub start_stops : List Owner → List Owner
unfolding start
start_stops [] = []
start_stops (o ∷ os) = record o { stop = start o.stop } ∷ start_stops os

unfoldable pub start_drains : List Owner → List Owner
unfolding start
start_drains [] = []
start_drains (o ∷ os) = record o { drain = start o.drain } ∷ start_drains os

unfoldable pub start_closes : List Owner → List Owner
unfolding start
start_closes [] = []
start_closes (o ∷ os) = record o { close = start o.close } ∷ start_closes os

-- The second loop of `StopProducingContext`, on what the waits return.
unfoldable pub join_stops : Withdrawal → Bool → List (Withdrawal × Bool) → Withdrawal × Bool
join_stops whole failed [] = (whole, failed)
join_stops whole failed ((one, err) ∷ rest) =
    let bad = err || not one.complete in
    join_stops
      (record {
        instances = add64 whole.instances one.instances;
        complete = if bad then false else whole.complete;
      })
      (failed || bad) rest

-- `StopProducingContext`, behind its first loop.
unfoldable pub stop_producing : List (Withdrawal × Bool) → Withdrawal × Bool
unfolding join_stops
stop_producing = join_stops (record { instances = 0; complete = true }) false

abbrev pub stops_of : List Owner → List (Withdrawal × Bool)
stops_of = map (λ o. wait no_withdrawal o.stop)

-- The second loop of `DrainContext`.
unfoldable pub join_drains : Drained → Bool → List (Drained × Bool) → Drained × Bool
join_drains whole failed [] = (whole, failed)
join_drains whole failed ((one, err) ∷ rest) =
    let bad = err || not one.complete in
    join_drains
      (record {
        delivered = add_count whole.delivered (if err then uncounted else one.delivered);
        outstanding = add_count whole.outstanding (if err then uncounted else one.outstanding);
        complete = if bad then false else whole.complete;
      })
      (failed || bad) rest

-- `DrainContext`, behind its first loop.
unfoldable pub drain : List (Drained × Bool) → Drained × Bool
unfolding join_drains
drain =
    join_drains (record { delivered = counted 0; outstanding = counted 0; complete = true }) false

abbrev pub drains_of : List Owner → List (Drained × Bool)
drains_of = map (λ o. wait no_drained o.drain)

-- `unknownCounters`.
abbrev pub unknown_counters : Counters
unknown_counters = record {
  ordered = uncounted;
  reservation_attempts = uncounted;
  reservations = uncounted;
  reservation_failures = uncounted;
  submitted = uncounted;
  delivered = uncounted;
  undecodable = uncounted;
  lost_after_submission = uncounted;
  outstanding = uncounted;
  still_executing = uncounted;
  unmatched_returns = uncounted;
  unmeasurable_calls = uncounted;
  sockets_unrecorded = uncounted;
  bindings_unrecorded = uncounted;
  denials_unrecorded = uncounted;
  deferred_discarded = uncounted;
  refused_in_flight = uncounted;
  transfers = uncounted;
  unmeasured = uncounted;
  empty = uncounted;
  fragments = uncounted;
  fragments_refused = uncounted;
  persisted = uncounted;
  persisted_dropped = uncounted;
  persisted_refused = uncounted;
  discards = uncounted;
  unplaced_bytes = uncounted;
}

-- `sumCounters`.
unfoldable pub sum_counters : Counters → Counters → Counters
sum_counters whole one = record {
  ordered = add_count whole.ordered one.ordered;
  reservation_attempts = add_count whole.reservation_attempts one.reservation_attempts;
  reservations = add_count whole.reservations one.reservations;
  reservation_failures = add_count whole.reservation_failures one.reservation_failures;
  submitted = add_count whole.submitted one.submitted;
  delivered = add_count whole.delivered one.delivered;
  undecodable = add_count whole.undecodable one.undecodable;
  lost_after_submission = add_count whole.lost_after_submission one.lost_after_submission;
  outstanding = add_count whole.outstanding one.outstanding;
  still_executing = add_count whole.still_executing one.still_executing;
  unmatched_returns = add_count whole.unmatched_returns one.unmatched_returns;
  unmeasurable_calls = add_count whole.unmeasurable_calls one.unmeasurable_calls;
  sockets_unrecorded = add_count whole.sockets_unrecorded one.sockets_unrecorded;
  bindings_unrecorded = add_count whole.bindings_unrecorded one.bindings_unrecorded;
  denials_unrecorded = add_count whole.denials_unrecorded one.denials_unrecorded;
  deferred_discarded = add_count whole.deferred_discarded one.deferred_discarded;
  refused_in_flight = add_count whole.refused_in_flight one.refused_in_flight;
  transfers = add_count whole.transfers one.transfers;
  unmeasured = add_count whole.unmeasured one.unmeasured;
  empty = add_count whole.empty one.empty;
  fragments = add_count whole.fragments one.fragments;
  fragments_refused = add_count whole.fragments_refused one.fragments_refused;
  persisted = add_count whole.persisted one.persisted;
  persisted_dropped = add_count whole.persisted_dropped one.persisted_dropped;
  persisted_refused = add_count whole.persisted_refused one.persisted_refused;
  discards = add_count whole.discards one.discards;
  unplaced_bytes = add_count whole.unplaced_bytes one.unplaced_bytes;
}

abbrev pub counters_or_unknown : Counters → Bool → Counters
counters_or_unknown one err = if err then unknown_counters else one

-- The second loop of `AccountContext`, behind its first round.
unfoldable pub join_accounts : Counters → Bool → List (Counters × Bool) → Counters × Bool
unfolding sum_counters
join_accounts whole failed [] = (whole, failed)
join_accounts whole failed ((one, err) ∷ rest) =
    join_accounts (sum_counters whole (counters_or_unknown one err)) (failed || err) rest

-- `AccountContext`, behind its first loop.
unfoldable pub account : List (Counters × Bool) → Counters × Bool
unfolding join_accounts
account [] = (unknown_counters, false)
account ((one, err) ∷ rest) = join_accounts (counters_or_unknown one err) err rest

-- `CloseContext`, behind its first loop: whether there was a failure.
unfoldable pub close : List (Unit {0} × Bool) → Bool
close [] = false
close ((one, err) ∷ rest) = let later = close rest in err || later

-- ===== src/Connection/Tests.antt =====
-- The theorems on balanced counters and on a seal at concrete counters and a concrete producer.
use edge_observer.Prelude.{ℕ, ◌+◌, ◌≡◌, refl, add64, ◌↔◌, true, false}
use edge_observer.Connection.{Counters, counted, uncounted}
use edge_observer.Connection.Balance.{is_balanced, IsConserved, identities-IsConserved}
use edge_observer.Connection.Seal.{
  Producer, Sealer, already_sealed, not_stopped, stopped, finalise, sound, stop, stop_lem,
}

-- Seven places: a refusal in flight, a failed reservation, and five events of which one is lost and
-- one outstanding.
abbrev seven_places : Counters
seven_places = record {
  ordered = counted 7;
  reservation_attempts = counted 6;
  reservations = counted 5;
  reservation_failures = counted 1;
  submitted = counted 5;
  delivered = counted 3;
  undecodable = counted 0;
  lost_after_submission = counted 1;
  outstanding = counted 1;
  still_executing = uncounted;
  unmatched_returns = uncounted;
  unmeasurable_calls = uncounted;
  sockets_unrecorded = uncounted;
  bindings_unrecorded = uncounted;
  denials_unrecorded = uncounted;
  deferred_discarded = uncounted;
  refused_in_flight = counted 1;
  transfers = counted 4;
  unmeasured = counted 0;
  empty = counted 1;
  fragments = counted 2;
  fragments_refused = counted 1;
  persisted = counted 2;
  persisted_dropped = counted 1;
  persisted_refused = counted 0;
  discards = uncounted;
  unplaced_bytes = uncounted;
}

-- Six identities hold there.
is_balanced_run : is_balanced seven_places ≡ true
unfolding is_balanced add64
is_balanced_run = refl

identities-IsConserved_example : (is_balanced seven_places ≡ true) ↔ IsConserved seven_places
identities-IsConserved_example = identities-IsConserved seven_places

-- A producer that counts the calls of it, and whose drain fails.
abbrev failing_drain : Producer ℕ
failing_drain = record {
  stop_producing = λ n. (n + 1, record { instances = 2; complete = true }, false);
  drain = λ _ n.
      (n + 1, record { delivered = counted 3; outstanding = uncounted; complete = true }, true);
  account = λ n. (n + 1, seven_places, false);
}

abbrev five_seconds : Sealer
five_seconds = record { has_producer = true; within = 5; sealed = false }

stop_lem_example :
    let (s4, seal) = finalise failing_drain 5 0 in
    (stop failing_drain five_seconds 0 ≡ (record five_seconds { sealed = true }, 3, stopped seal))
    × ((sound seal ≡ true) ↔ (
        (true ≡ true)
        × (false ≡ false)
        × (true ≡ true)
        × (true ≡ false)
        × (false ≡ false)
        × IsConserved (record seven_places { outstanding = uncounted })))
    × (stop failing_drain (record five_seconds { sealed = true }) 9
        ≡ (record five_seconds { sealed = true }, 9, not_stopped already_sealed))
stop_lem_example = stop_lem failing_drain five_seconds 0 9 refl refl refl

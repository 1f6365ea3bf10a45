-- ===== src/Attachment/Tests.antt =====
-- The theorems on calls and on the seal of a group at two concrete owners.
use edge_observer.Prelude.{◌≡◌, refl, true, false, [], ◌∷◌, add64}
use edge_observer.Connection.{counted, uncounted}
use edge_observer.Connection.Seal.{sound}
use edge_observer.Attachment.Sound.{Answers, owner_seal, group_seal, group_seal-sound}

-- An owner with seven places, one event of which is left outstanding, and one with two places.
abbrev busy_owner : Answers
busy_owner = record {
  withdrawal = record { instances = 2; complete = true };
  stop_failed = false;
  drained = record { delivered = counted 3; outstanding = counted 1; complete = true };
  drain_failed = false;
  counters = record {
    ordered = counted 7;
    reservation_attempts = counted 6;
    reservations = counted 5;
    reservation_failures = counted 1;
    submitted = counted 5;
    delivered = counted 3;
    undecodable = counted 0;
    lost_after_submission = counted 1;
    outstanding = uncounted;
    still_executing = uncounted;
    unmatched_returns = uncounted;
    unmeasurable_calls = uncounted;
    sockets_unrecorded = uncounted;
    bindings_unrecorded = uncounted;
    denials_unrecorded = uncounted;
    deferred_discarded = uncounted;
    refused_in_flight = counted 1;
    transfers = counted 4;
    unmeasured = counted 0;
    empty = counted 1;
    fragments = counted 2;
    fragments_refused = counted 1;
    persisted = counted 2;
    persisted_dropped = counted 1;
    persisted_refused = counted 0;
    discards = uncounted;
    unplaced_bytes = uncounted;
  };
  account_failed = false;
}

abbrev quiet_owner : Answers
quiet_owner = record {
  withdrawal = record { instances = 1; complete = true };
  stop_failed = false;
  drained = record { delivered = counted 2; outstanding = counted 0; complete = true };
  drain_failed = false;
  counters = record {
    ordered = counted 2;
    reservation_attempts = counted 2;
    reservations = counted 2;
    reservation_failures = counted 0;
    submitted = counted 2;
    delivered = counted 2;
    undecodable = counted 0;
    lost_after_submission = counted 0;
    outstanding = uncounted;
    still_executing = uncounted;
    unmatched_returns = uncounted;
    unmeasurable_calls = uncounted;
    sockets_unrecorded = uncounted;
    bindings_unrecorded = uncounted;
    denials_unrecorded = uncounted;
    deferred_discarded = uncounted;
    refused_in_flight = counted 0;
    transfers = counted 2;
    unmeasured = counted 0;
    empty = counted 0;
    fragments = counted 2;
    fragments_refused = counted 0;
    persisted = counted 2;
    persisted_dropped = counted 0;
    persisted_refused = counted 0;
    discards = uncounted;
    unplaced_bytes = uncounted;
  };
  account_failed = false;
}

busy_owner-sound : sound (owner_seal busy_owner) ≡ true
unfolding sound owner_seal add64
busy_owner-sound = refl

quiet_owner-sound : sound (owner_seal quiet_owner) ≡ true
unfolding sound owner_seal add64
quiet_owner-sound = refl

group_seal-sound_example : sound (group_seal (busy_owner ∷ quiet_owner ∷ [])) ≡ true
group_seal-sound_example =
    group_seal-sound busy_owner (quiet_owner ∷ []) (busy_owner-sound, (quiet_owner-sound, tt))

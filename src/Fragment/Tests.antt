-- ===== src/Fragment/Tests.antt =====
-- The theorems on evidence at a concrete record.
use edge_observer.Prelude.{◌≤◌, ◌≡◌, ◌≢◌, ◌⊎◌, refl, true, false, [], ◌∷◌, none, some, add64}
use edge_observer.Prelude.Int.{pos}
use edge_observer.Admission.{determinate}
use edge_observer.Fragment.Positions.{
  Direction, DirectionEvidence, Evidence, established, of_direction, validate_direction,
  direction_fault, identity_fault, directions_fault, validate_evidence,
}
use edge_observer.Fragment.{Record, validate, evidenced, own_fault, bound_fault, end_of}
use edge_observer.Fragment.Established.{evidenced_establishes}

abbrev nothing_seen : DirectionEvidence
nothing_seen = record {
  limit = 0;
  cut = false;
  from = 0;
  lost = 0;
  lost_uncounted = false;
  first = 0;
  numbered = 0;
  resolved = 0;
  empties = 0;
}

-- Evidence at the second fragment of a connection, the second sent.
abbrev second_evidence : Evidence
second_evidence = record {
  identity = some (record {
    connection = 5;
    process = record { pid = pos 812; start_time = 90_411 };
    instance_ = record {
      namespace = record { device = 4; inode = 4_026_531_836 };
      pid = pos 812;
      start = determinate 90_411;
      generation = 3;
      executable = "/usr/bin/curl";
    };
    address = 140_000;
    generation = 1;
    network_device = 4;
    network_inode = 4_026_531_840;
    first_seen = none;
    opened = none;
  });
  occupancy = 1;
  origin = 1;
  through = 2;
  sent = record nothing_seen { limit = 7; first = 1; numbered = 2; resolved = 2 };
  received = nothing_seen;
}

-- Three bytes kept of four, at offset three.
abbrev second_sent : Record
second_sent = record {
  process = record { pid = pos 812; start_time = 90_411 };
  connection = 5;
  direction = Direction.sent;
  sequence = 2;
  offset = 3;
  size = 4;
  produced = 2;
  empties = 0;
  payload = 71 ∷ 69 ∷ 84 ∷ [];
  at = some 100;
  evidence = second_evidence;
}

second_sent_lem : validate second_sent ≡ none
unfolding validate bound_fault validate_evidence identity_fault directions_fault direction_fault
    validate_direction
second_sent_lem = refl

second_sent-evidenced : evidenced second_sent ≡ none
unfolding evidenced own_fault of_direction end_of add64 validate bound_fault validate_evidence
    identity_fault directions_fault direction_fault validate_direction
second_sent-evidenced = refl

evidenced_establishes_example :
    let own = of_direction second_evidence Direction.sent in
    (established second_evidence Direction.sent ≤ end_of second_sent)
    × ((own.cut ≡ true)
        ⊎ ((established second_evidence Direction.sent ≡ end_of second_sent)
            × (second_sent.produced ≢ 0)
            × (own.resolved ≡ second_sent.produced)
            × (own.numbered ≡ second_sent.produced)))
    × ((second_sent.produced ≢ 0) ⊎ (established second_evidence Direction.sent ≤ 3))
evidenced_establishes_example = evidenced_establishes second_sent second_sent-evidenced

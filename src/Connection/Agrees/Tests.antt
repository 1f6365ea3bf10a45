-- ===== src/Connection/Agrees/Tests.antt =====
-- The theorems on a connection's record at a concrete record and concrete evidence.
use edge_observer.Prelude.{◌≤◌, ◌≡◌, ◌⊎◌, refl, true, false, [], ◌∷◌, none, some, add64, ltb}
use edge_observer.Prelude.Int.{pos}
use edge_observer.Admission.{Instance, determinate, key}
use edge_observer.Fragment.Positions.{
  Direction, Evidence, established, of_direction, validate_direction, direction_fault,
  identity_fault, directions_fault, validate_evidence,
}
use edge_observer.Connection.{counted}
use edge_observer.Connection.Binding.{
  Association, State, Reason, joins, JoinReason, validate_association, validate_handle,
  confirmed_in_call, in_call_syscall,
}
use edge_observer.Connection.Placement.{Placement, unknown_from, validate_placement}
use edge_observer.Connection.Record.{
  Record, placement, association, validate, find_placement, still_open,
}
use edge_observer.Connection.Record.Joins.{IsJoinable, validate-IsJoinable}
use edge_observer.Connection.Agrees as Agrees
use edge_observer.Connection.Agrees.{agrees, agrees_in}
use edge_observer.Connection.Agrees.Kept.{says, agrees-established}

abbrev curl : Instance
curl = record {
  namespace = record { device = 4; inode = 4_026_531_836 };
  pid = pos 812;
  start = determinate 90_411;
  generation = 3;
  executable = "/usr/bin/curl";
}

-- Two fragments sent, cut at offset three with one transfer lost.
abbrev cut_evidence : Evidence
cut_evidence = record {
  identity = some (record {
    connection = 5;
    process = record { pid = pos 812; start_time = 90_411 };
    instance_ = curl;
    address = 140_000;
    generation = 1;
    network_device = 4;
    network_inode = 4_026_531_840;
    first_seen = some 70;
    opened = none;
  });
  occupancy = 1;
  origin = 1;
  through = 2;
  sent = record {
    limit = 7;
    cut = true;
    from = 3;
    lost = 1;
    lost_uncounted = false;
    first = 1;
    numbered = 3;
    resolved = 1;
    empties = 0;
  };
  received = record {
    limit = 0;
    cut = false;
    from = 0;
    lost = 0;
    lost_uncounted = false;
    first = 0;
    numbered = 0;
    resolved = 0;
    empties = 0;
  };
}

abbrev sent_binding : Association
sent_binding = record {
  connection = 5;
  direction = Direction.sent;
  state = State.established;
  reason = Reason.unset;
  binding = 2;
  source = in_call_syscall;
  valid = record { from = some 70; until = none; open_ = true };
  descriptor = record { number = pos 0; known = true };
  socket = record { inode = 991; known = true };
  endpoints = record {
    local = record { port = 50_123; known = true };
    remote = record { port = 443; known = true };
    netns = record { device = 4; inode = 4_026_531_840 };
  };
  join = joins;
  join_reason = JoinReason.unset;
  contended = [];
  basis = confirmed_in_call;
}

abbrev sent_placement : Placement
sent_placement = record {
  connection = 5;
  direction = Direction.sent;
  positions = unknown_from;
  from = 3;
  because = Reason.observation_lost;
  lost = counted 2;
}

-- The record of that connection, with one more transfer lost.
abbrev curl_record : Record
curl_record = record {
  id = 5;
  handle = record { instance_ = key curl; address = 140_000; generation = 1 };
  instance_ = curl;
  process = record { pid = pos 812; start_time = 90_411 };
  network = record { device = 4; inode = 4_026_531_840 };
  first_seen = some 70;
  opened = none;
  opened_known = false;
  ended = none;
  how = still_open;
  associations = sent_binding ∷ [];
  placements = sent_placement ∷ [];
  fragments = counted 3;
  early = [];
  early_unmeasured = 0;
}

curl_record-agrees : agrees curl_record cut_evidence ≡ none
unfolding agrees Agrees.identity_fault Agrees.named_fault Agrees.directions_fault agrees_in
    find_placement of_direction add64 validate_evidence identity_fault directions_fault
    direction_fault validate_direction
curl_record-agrees = refl

-- At the offset of the cut.
agrees-established_example :
    (2 ≤ 3)
    × ((says (placement curl_record Direction.sent) 3
          ≡ some (ltb 3 (established cut_evidence Direction.sent)))
        ⊎ (((of_direction cut_evidence Direction.sent).cut ≡ false)
            × (established cut_evidence Direction.sent ≤ 3)))
agrees-established_example =
    agrees-established curl_record cut_evidence Direction.sent 3 curl_record-agrees refl

curl_record_lem : validate curl_record ≡ none
unfolding validate validate_handle validate_association validate_placement
curl_record_lem = refl

validate-IsJoinable_example :
    (association curl_record Direction.sent ≡ some sent_binding)
    × (sent_binding.connection ≡ 5)
    × IsJoinable sent_binding
validate-IsJoinable_example = validate-IsJoinable curl_record 0 curl_record_lem refl refl

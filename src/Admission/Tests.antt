-- ===== src/Admission/Tests.antt =====
-- The theorems on admission at concrete records.
use edge_observer.Prelude.{◌≡◌, ◌↔◌, none, []}
use edge_observer.Prelude.Int.{pos}
use edge_observer.Admission.Descent.{Mode}
use edge_observer.Admission.{
  Instance, Kind, Selection, determinate, indeterminate, validate_selection,
}
use edge_observer.Admission.Identity.{IsGrant, validate_selection-IsGrant}

abbrev admitted : Instance
admitted = record {
  namespace = record { device = 4; inode = 4_026_531_836 };
  pid = pos 812;
  start = determinate 90_411;
  generation = 3;
  executable = "/usr/bin/curl";
}

-- The same process, its start not read.
abbrev unread_start : Instance
unread_start = record admitted { start = indeterminate; executable = "" }

abbrev granted : Selection
granted = record {
  instance_ = admitted;
  kind = Kind.by_target;
  provenance = record {
    target = "curl";
    number = pos 1;
    rule = pos 1;
    parent = record { namespace = record { device = 0; inode = 0 }; pid = pos 0; generation = 0 };
  };
  also_named_by = [];
  mode = Mode.follow;
  observer_pid = pos 1;
}

validate_selection-IsGrant_example : (validate_selection granted ≡ none) ↔ IsGrant granted
validate_selection-IsGrant_example = validate_selection-IsGrant granted

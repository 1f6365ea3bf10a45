-- ===== src/Connection.antt =====
-- connection/count.go, connection/account.go: a run's counters and the identities over them. A count's
-- int64 is the uint64 of the same bits, so that a sum wraps as the source's does.
pub mod Joined
pub mod Binding
pub mod Placement
pub mod Record
pub mod Agrees
pub mod Balance
pub mod Seal
mod Tests
use edge_observer.Prelude.{
  ℕ, Bool, true, false, not, ◌&&◌, ◌||◌, List, [], ◌∷◌, ◌==◌, if◌then◌else◌, add64,
}

-- `Count`; its reason is left out.
pub record Count : Type 0 where
  pub value : ℕ
  pub known : Bool

-- `Counted`, `Uncounted`.
abbrev pub counted : ℕ → Count
counted n = record { value = n; known = true }

abbrev pub uncounted : Count
uncounted = record { value = 0; known = false }

-- `Count.Add`.
unfoldable pub add_count : Count → Count → Count
add_count c o =
    if not c.known then c else if not o.known then o else counted (add64 c.value o.value)

-- `Counters`.
pub record Counters : Type 0 where
  pub ordered : Count
  pub reservation_attempts : Count
  pub reservations : Count
  pub reservation_failures : Count
  pub submitted : Count
  pub delivered : Count
  pub undecodable : Count
  pub lost_after_submission : Count
  pub outstanding : Count
  pub still_executing : Count
  pub unmatched_returns : Count
  pub unmeasurable_calls : Count
  pub sockets_unrecorded : Count
  pub bindings_unrecorded : Count
  pub denials_unrecorded : Count
  pub deferred_discarded : Count
  pub refused_in_flight : Count
  pub transfers : Count
  pub unmeasured : Count
  pub empty : Count
  pub fragments : Count
  pub fragments_refused : Count
  pub persisted : Count
  pub persisted_dropped : Count
  pub persisted_refused : Count
  pub discards : Count
  pub unplaced_bytes : Count

abbrev pub take_known : Count → Count → Count
take_known held offered = if held.known then held else offered

-- `Counters.Join`.
unfoldable pub join : Counters → Counters → Counters
join c o = record {
  ordered = take_known c.ordered o.ordered;
  reservation_attempts = take_known c.reservation_attempts o.reservation_attempts;
  reservations = take_known c.reservations o.reservations;
  reservation_failures = take_known c.reservation_failures o.reservation_failures;
  submitted = take_known c.submitted o.submitted;
  delivered = take_known c.delivered o.delivered;
  undecodable = take_known c.undecodable o.undecodable;
  lost_after_submission = take_known c.lost_after_submission o.lost_after_submission;
  outstanding = take_known c.outstanding o.outstanding;
  still_executing = take_known c.still_executing o.still_executing;
  unmatched_returns = take_known c.unmatched_returns o.unmatched_returns;
  unmeasurable_calls = take_known c.unmeasurable_calls o.unmeasurable_calls;
  refused_in_flight = take_known c.refused_in_flight o.refused_in_flight;
  sockets_unrecorded = take_known c.sockets_unrecorded o.sockets_unrecorded;
  bindings_unrecorded = take_known c.bindings_unrecorded o.bindings_unrecorded;
  denials_unrecorded = take_known c.denials_unrecorded o.denials_unrecorded;
  deferred_discarded = take_known c.deferred_discarded o.deferred_discarded;
  transfers = take_known c.transfers o.transfers;
  unmeasured = take_known c.unmeasured o.unmeasured;
  empty = take_known c.empty o.empty;
  fragments = take_known c.fragments o.fragments;
  fragments_refused = take_known c.fragments_refused o.fragments_refused;
  persisted = take_known c.persisted o.persisted;
  persisted_dropped = take_known c.persisted_dropped o.persisted_dropped;
  persisted_refused = take_known c.persisted_refused o.persisted_refused;
  discards = take_known c.discards o.discards;
  unplaced_bytes = take_known c.unplaced_bytes o.unplaced_bytes;
}

-- `Identity`, but for its name and its sides.
pub record Identity : Type 0 where
  pub evaluated : Bool
  pub holds : Bool

-- The loop of `identity`.
unfoldable pub add_counts : Count → List Count → Count
unfolding add_count
add_counts sum [] = sum
add_counts sum (c ∷ cs) = add_counts (add_count sum c) cs

abbrev pub compare_sides : Count → Count → Identity
compare_sides left sum =
    if not left.known || not sum.known
    then record { evaluated = false; holds = false }
    else record { evaluated = true; holds = left.value == sum.value }

-- `identity`.
unfoldable pub identity : Count → List Count → Identity
unfolding add_counts
identity left right = compare_sides left (add_counts (counted 0) right)

-- `reservedNotSubmitted`.
abbrev pub reserved_not_submitted : Count
reserved_not_submitted = counted 0

-- `Identities`.
unfoldable pub identities : Counters → List Identity
unfolding identity add_count
identities c =
    identity c.ordered (c.reservation_attempts ∷ c.refused_in_flight ∷ [])
    ∷ identity c.reservation_attempts (c.reservations ∷ c.reservation_failures ∷ [])
    ∷ identity c.reservations (c.submitted ∷ reserved_not_submitted ∷ [])
    ∷ identity c.submitted
        (c.delivered ∷ c.undecodable ∷ c.lost_after_submission ∷ c.outstanding ∷ [])
    ∷ identity c.transfers (c.fragments ∷ c.empty ∷ c.unmeasured ∷ c.fragments_refused ∷ [])
    ∷ identity (add_count c.fragments c.fragments_refused)
        (c.persisted ∷ c.persisted_dropped ∷ c.persisted_refused ∷ [])
    ∷ []

-- The loop of `Balanced`, from what holds and is complete so far.
unfoldable pub balanced_from : Bool → Bool → List Identity → Bool × Bool
balanced_from holds complete [] = (holds, complete)
balanced_from holds complete (i ∷ is) =
    if not i.evaluated
    then balanced_from holds false is
    else if not i.holds
    then balanced_from false complete is
    else balanced_from holds complete is

-- `Balanced`.
unfoldable pub balanced : Counters → Bool × Bool
unfolding balanced_from identities
balanced c = balanced_from true true (identities c)

-- The loop of `Complete`.
unfoldable pub complete_from : List Count → Bool × Bool
complete_from [] = (true, true)
complete_from (c ∷ cs) =
    let rest = complete_from cs in
    if not c.known then (false, false) else if not (c.value == 0) then (false, true) else rest

-- `Complete`.
unfoldable pub complete : Counters → Bool × Bool
unfolding complete_from
complete c =
    complete_from (c.sockets_unrecorded ∷ c.bindings_unrecorded ∷ c.denials_unrecorded ∷ [])

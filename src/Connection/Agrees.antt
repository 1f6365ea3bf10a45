-- ===== src/Connection/Agrees.antt =====
-- connection/evidence.go: whether the record of a connection agrees with evidence of it that a
-- consumer held before. An int64 count is the uint64 of the same bits.
pub mod Kept
mod Tests
use text.Mathlib.Text.{◌==◌ as str_eq}
use edge_observer.Prelude.{
  ℕ, Bool, true, false, not, ◌&&◌, ◌||◌, Option, none, some, ◌==◌, ltb, leb, if◌then◌else◌, is_none,
  add64,
}
use edge_observer.Prelude.Int.{eq_ℤ}
use edge_observer.Admission.{Instance, key, same_key, same_namespace}
use edge_observer.Fragment.Positions.{
  Direction, Evidence, DirectionEvidence, Identity, of_direction, validate_evidence, same_process,
}
use edge_observer.Fragment.Positions as Positions
use edge_observer.Connection.Binding.{Netns}
use edge_observer.Connection.Placement.{Placement, whole, is_unknown_from, is_unknown_throughout}
use edge_observer.Connection.Record.{Record, placement}

-- `==` on instances, on namespaces and on times.
abbrev pub same_instance : Instance → Instance → Bool
same_instance a b =
    same_key (key a) (key b)
    && a.start.ticks == b.start.ticks
    && (if a.start.determined then b.start.determined else not b.start.determined)
    && str_eq a.executable b.executable

abbrev pub same_netns : Netns → ℕ → ℕ → Bool
same_netns n device inode = n.device == device && n.inode == inode

abbrev pub same_time : Option ℕ → Option ℕ → Bool
same_time none none = true
same_time (some a) (some b) = a == b
same_time _ _ = false

-- 2 ^ 63, the bits of the least int64.
abbrev pub int64_sign : ℕ
int64_sign = 9_223_372_036_854_775_808

-- `a < b` on int64.
abbrev pub less_int64 : ℕ → ℕ → Bool
less_int64 a b = ltb (add64 a int64_sign) (add64 b int64_sign)

-- What `Agrees` answers.
pub data Fault : Type 0 where
  in_evidence : Positions.Fault → Fault
  another_connection another_execution another_handle another_network : Fault
  first_seen_apart opened_apart too_few_fragments : Fault
  no_placement below_limit cut_elsewhere lost_counted too_few_lost : Fault

-- The switch of `Agrees`: on the identity, and on the fragments counted.
unfoldable pub named_fault : Record → Identity → Option Fault
named_fault r i =
    if not (r.id == i.connection) || not (same_process r.process i.process)
    then some another_connection
    else if not (same_instance r.instance_ i.instance_)
        || not (same_key r.handle.instance_ (key i.instance_))
    then some another_execution
    else if not (r.handle.address == i.address) || not (r.handle.generation == i.generation)
    then some another_handle
    else if not (same_netns r.network i.network_device i.network_inode)
    then some another_network
    else if not (same_time r.first_seen i.first_seen)
    then some first_seen_apart
    else if (if r.opened_known then is_none i.opened else not (is_none i.opened))
        || not (same_time r.opened i.opened)
    then some opened_apart
    else none

unfoldable pub identity_fault : Record → Evidence → Identity → Option Fault
identity_fault r e i = elim (named_fault r i) [
  | some f ↦ some f
  | none ↦
      if not r.fragments.known
        || leb int64_sign r.fragments.value
        || ltb r.fragments.value e.through
      then some too_few_fragments
      else none
]

-- `agreesIn` of a direction that the evidence did not cut, and of one that it cut.
uncut_fault : Placement → DirectionEvidence → Option Fault
uncut_fault p held =
    if whole p || (is_unknown_from p.positions && leb held.limit p.from)
    then none
    else some below_limit

cut_fault : Placement → DirectionEvidence → Option Fault
cut_fault p held =
    if (held.from == 0 && not (is_unknown_throughout p.positions))
      || (not (held.from == 0) && (not (is_unknown_from p.positions) || not (p.from == held.from)))
    then some cut_elsewhere
    else if held.lost_uncounted && p.lost.known
    then some lost_counted
    else if p.lost.known && less_int64 p.lost.value held.lost
    then some too_few_lost
    else none

-- `agreesIn`.
unfoldable pub agrees_in : Record → Direction → DirectionEvidence → Option Fault
unfolding uncut_fault cut_fault
agrees_in r d held = if not held.cut && held.limit == 0 then none else elim (placement r d) [
  | none ↦ some no_placement
  | some p ↦ if held.cut then cut_fault p held else uncut_fault p held
]

-- The loop of `Agrees` over the directions.
unfoldable pub directions_fault : Record → Evidence → Option Fault
directions_fault r e = elim (agrees_in r Direction.sent (of_direction e Direction.sent)) [
  | some f ↦ some f
  | none ↦ agrees_in r Direction.received (of_direction e Direction.received)
]

-- `Agrees`. Evidence that passes its check has an identity, so that the switch reads one.
unfoldable pub agrees : Record → Evidence → Option Fault
agrees r e = elim (validate_evidence e) [
  | some f ↦ some (in_evidence f)
  | none ↦ elim e.identity [
    | none ↦ none
    | some i ↦ elim (identity_fault r e i) [ some f ↦ some f | none ↦ directions_fault r e ]
  ]
]

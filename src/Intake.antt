-- ===== src/Intake.antt =====
-- intake/intake.go: the bounded volatile store between capture and the processing worker.
--
-- The linked list of queued entries is a list, oldest first; the entries that `Take` handed out are
-- a second list, and a worker names one by its place there. Each operation runs under the store's
-- mutex and is one function on the state. A nil or zero store has no `exhausted` channel (`none`);
-- else that holds how often it was closed: a second close would panic. int64 amounts are natural
-- numbers, and a work charge, which may fall below zero, is what was given and what came back.
-- `Slot.Keep` on a stored record is `Gate.keep` and left out here.
-- What is stored is copied whole and read by nobody here, so that an entry holds the record itself;
-- `R` is either record. Slots are named by numbers, and `refunds` lists the slots returned.
pub mod Allowance
pub mod State
pub mod Signal
pub mod Ledger
pub mod Order
mod Tests
use edge_observer.Prelude.{
  ℕ, zero, suc, ◌+◌, ◌-◌, Bool, true, false, ◌&&◌, ◌||◌, not, List, [], ◌∷◌, ◌++◌, Option, none,
  some, ltb, if◌then◌else◌, get_elem?, set, length,
}
use edge_observer.Gate.State.{RefundPath}
use State.{
  Owner, parsing, policy, other, Error, limit, closed, uninitialized, Stats, Balance, Entry, Store,
  new_stats, left,
}
use Allowance.{Sizes, Shape, fragment_charge, connection_charge}

close_signal : Option ℕ → Option ℕ
close_signal none = none
close_signal (some n) = some (n + 1)

refund_to : Option ℕ → RefundPath → List (ℕ × RefundPath) → List (ℕ × RefundPath)
refund_to none path done = done
refund_to (some slot) path done = done ++ ((slot, path) ∷ [])

is_owner : Owner → Bool
is_owner parsing = true
is_owner policy = true
is_owner other = false

refuse_work : Owner → Stats → Stats
refuse_work parsing t = record t { parsing_refused = t.parsing_refused + 1 }
refuse_work _ t = record t { policy_refused = t.policy_refused + 1 }

grant_work : Owner → ℕ → Stats → Stats
grant_work parsing n t = record t { parsing = record (t.parsing) { given = t.parsing.given + n } }
grant_work _ n t = record t { policy = record (t.policy) { given = t.policy.given + n } }

give_back : Owner → ℕ → Stats → Stats
give_back parsing n t = record t { parsing = record (t.parsing) { back = t.parsing.back + n } }
give_back policy n t = record t { policy = record (t.policy) { back = t.policy.back + n } }
give_back other n t = t

-- What an insertion returns: the store, its error, and whether it stopped the record's loss token.
abbrev pub Inserted : Type 0 → Type 0
Inserted R = Store R × Option Error × Bool

-- One call on the store.
pub data Call (R : Type 0) : Type 0 where
  writes : R → ℕ → Option ℕ → Call R
  connects : R → Shape → Option ℕ → Call R
  takes : Call R
  releases : ℕ → RefundPath → Call R
  reserves returns : Owner → ℕ → Call R
  closes : Call R

module _ {R : Type 0} where
  -- `New`, for a limit that is not negative.
  pub new : ℕ → Option (Store R)
  new zero = none
  new (suc n) = some (record {
    stats = new_stats (suc n);
    queue = [];
    taken = [];
    exhausted = some 0;
    refunds = [];
  })

  -- `ready`.
  abbrev pub ready : Store R → Option Error
  ready s = elim s.exhausted [
    | none ↦ some uninitialized
    | some n ↦ if s.stats.is_closed then some closed else none
  ]

  -- `full`.
  pub full : Store R → Store R
  unfolding close_signal
  full s = if s.stats.is_exhausted then s else record s {
    stats = record (s.stats) { is_exhausted = true };
    exhausted = close_signal s.exhausted;
  }

  -- `append`, of an entry with its charge.
  append : Store R → R → Option ℕ → ℕ → Store R
  append s r slot bytes = record s {
    queue =
        s.queue ++ (record { stored = some r; bytes = bytes; released = false; slot = slot } ∷ []);
    stats = record (s.stats) { bytes = s.stats.bytes + bytes; queued = s.stats.queued + 1 };
  }

  -- `Write` of a fragment whose payload has `n` bytes.
  pub write : Sizes → Store R → R → ℕ → Option ℕ → Inserted R
  unfolding full append
  write z s r n slot = elim (ready s) [
    | some e ↦ (
      record s { stats = record (s.stats) { fragments_refused = s.stats.fragments_refused + 1 } },
      some e,
      false,
    )
    | none ↦ elim (fragment_charge z n (left s.stats)) [
      | none ↦ (
        full (record s {
          stats = record (s.stats) { fragments_refused = s.stats.fragments_refused + 1 };
        }),
        some limit,
        true,
      )
      | some rest ↦ (
        let t = append s r slot (left s.stats - rest) in
            record t { stats = record (t.stats) { fragments = t.stats.fragments + 1 } },
        none,
        false,
      )
    ]
  ]

  -- `Connection`, of a retirement record of this shape.
  pub connection : Sizes → Store R → R → Shape → Option ℕ → Inserted R
  unfolding full append
  connection z s r shape slot = elim (ready s) [
    | some e ↦ (
      record s {
        stats = record (s.stats) { connections_refused = s.stats.connections_refused + 1 };
      },
      some e,
      false,
    )
    | none ↦ elim (connection_charge z shape (left s.stats)) [
      | none ↦ (
        full (record s {
          stats = record (s.stats) { connections_refused = s.stats.connections_refused + 1 };
        }),
        some limit,
        true,
      )
      | some rest ↦ (
        let t = append s r slot (left s.stats - rest) in
            record t { stats = record (t.stats) { connections = t.stats.connections + 1 } },
        none,
        false,
      )
    ]
  ]

  take_from : Store R → List (Entry R) → Store R × Option (Entry R)
  take_from s [] = (s, none)
  take_from s (e ∷ es) = (
    record s {
      queue = es;
      taken = s.taken ++ (e ∷ []);
      stats = record (s.stats) { queued = s.stats.queued - 1; leased = s.stats.leased + 1 };
    },
    some e,
  )

  -- `Take`. The entry is named by its place in `taken`, which is the length before.
  pub take : Store R → Store R × Option (Entry R)
  unfolding take_from
  take s = take_from s s.queue

  -- `ReleaseAs`, of the taken entry at place `i`; past the end it is nil.
  pub release_as : Store R → ℕ → RefundPath → Store R
  unfolding refund_to
  release_as s i path = elim (get_elem? s.taken i) [
    | none ↦ s
    | some e ↦ if e.released then s else record s {
      taken = set s.taken i (record e { released = true; stored = none; slot = none });
      stats = record (s.stats) { bytes = s.stats.bytes - e.bytes; leased = s.stats.leased - 1 };
      refunds = refund_to e.slot path s.refunds;
    }
  ]

  -- `Release`.
  abbrev pub release : Store R → ℕ → Store R
  release s i = release_as s i RefundPath.discarded

  -- `Reserve`, of an amount that is not negative.
  pub reserve : Store R → Owner → ℕ → Store R × Bool
  unfolding is_owner refuse_work grant_work
  reserve s owner n = if not (is_owner owner) then (s, false) else elim s.exhausted [
    | none ↦ (s, false)
    | some c ↦
        if ltb (left s.stats) n
        then (record s { stats = refuse_work owner s.stats }, false)
        else (record s { stats = grant_work owner n s.stats }, true)
  ]

  -- `Return`, of an amount that is not negative.
  pub return : Store R → Owner → ℕ → Store R
  unfolding give_back
  return s owner n = record s { stats = give_back owner n s.stats }

  pub bytes_of : List (Entry R) → ℕ
  bytes_of [] = 0
  bytes_of (e ∷ es) = e.bytes + bytes_of es

  -- `Close`. The queued entries are given up; their slots are not returned.
  pub close : Store R → Store R
  unfolding bytes_of
  close s = record s {
    queue = [];
    stats = record (s.stats) {
      is_closed = true;
      bytes = s.stats.bytes - bytes_of s.queue;
      queued = 0;
    };
  }

  pub step : Sizes → Store R → Call R → Store R
  step z s (writes r n slot) = (write z s r n slot).0
  step z s (connects r shape slot) = (connection z s r shape slot).0
  step z s takes = (take s).0
  step z s (releases i path) = release_as s i path
  step z s (reserves owner n) = (reserve s owner n).0
  step z s (returns owner n) = return s owner n
  step z s closes = close s

  pub run : Sizes → Store R → List (Call R) → Store R
  run z s [] = s
  run z s (c ∷ cs) = run z (step z s c) cs

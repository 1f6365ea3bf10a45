-- ===== src/Sink/Frozen.antt =====
-- What `Freeze` of sink/queue.go fixes: the counters that are reported from then on.
use Prim.Native.String.{String}
use edge_observer.Prelude.{
  ℕ, zero, suc, ◌<◌, ◌≡◌, refl, sym, ap, ◌∙◌, Bool, true, false, List, [], ◌∷◌, Option, none, some,
  arith, if◌then◌else◌, get_elem?, is_none, Option-cases, Bool-cases, inl, inr, u64_mod, length,
}
use edge_observer.Sink.State.{Stats, Destination, Item, Queue, update_at, both}
use edge_observer.Sink.{
  Call, registers, enqueues, takes, finishes, closes, freezes, find, register, enqueue,
  count_discarded, take_item, take_next, finish, close_admission, freeze_each, freeze, discard_all,
  discard_inflight, frozen_or, queue_stats, destination_stats, step, run,
}
use edge_observer.Sink.Ledger.{IsSound}
use edge_observer.Sink.Ledger.Runs.{freeze-pending}

-- The second list has the places of the first, each frozen in both with the same stats.
abbrev SameFrozen : List Destination → List Destination → Type 0
SameFrozen [] [] = Unit {0}
SameFrozen (d ∷ ds) (e ∷ es) = (is_none d.frozen ≡ false) × (e.frozen ≡ d.frozen) × SameFrozen ds es
SameFrozen _ _ = ⊥

SameFrozen-freeze_each : (ds : List Destination) → SameFrozen (freeze_each ds) (freeze_each ds)
unfolding freeze_each
SameFrozen-freeze_each [] = tt
SameFrozen-freeze_each (d ∷ ds) = (refl, refl, SameFrozen-freeze_each ds)

SameFrozen-update_at :
    (ds es : List Destination) (i : ℕ) (f : Stats → Stats)
    → SameFrozen ds es
    → SameFrozen ds (update_at es i f)
unfolding update_at
SameFrozen-update_at [] [] i f h = tt
SameFrozen-update_at [] (e ∷ es) i f h = absurd h
SameFrozen-update_at (d ∷ ds) [] i f h = absurd h
SameFrozen-update_at (d ∷ ds) (e ∷ es) zero f h = h
SameFrozen-update_at (d ∷ ds) (e ∷ es) (suc i) f h = (h.0, h.1, SameFrozen-update_at ds es i f h.2)

-- A destination's stats, as `DestinationStats` finds them.
stats_at : List Destination → ℕ → Option Stats
stats_at ds i = elim (get_elem? ds i) [ none ↦ none | some d ↦ some (frozen_or d.frozen d.stats) ]

SameFrozen-stats_at :
    (ds es : List Destination) (i : ℕ) → SameFrozen ds es → stats_at es i ≡ stats_at ds i
unfolding stats_at
SameFrozen-stats_at [] [] i h = refl
SameFrozen-stats_at [] (e ∷ es) i h = absurd h
SameFrozen-stats_at (d ∷ ds) [] i h = absurd h
SameFrozen-stats_at (d ∷ ds) (e ∷ es) zero h = ground arith
SameFrozen-stats_at (d ∷ ds) (e ∷ es) (suc i) h = SameFrozen-stats_at ds es i h.2

-- A queue as it was when it froze, less what the runner still does.
record StaysFrozen (h q : Queue) : Type 0 where
  pub old : is_none h.frozen ≡ false
  pub shut : q.closed ≡ true
  pub same : q.frozen ≡ h.frozen
  pub each_same : SameFrozen h.destinations q.destinations

enqueue-frozen :
    (q : Queue) (name : String) (line : List ℕ)
    → is_none q.frozen ≡ false
    → (enqueue q name line).0 ≡ q
unfolding enqueue
enqueue-frozen q name line h = elim (Option-cases (find name q.destinations)) [
  | inl e ↦ rw (e, enqueue) refl
  | inr (i, e) ↦ rw (e, enqueue) (ground arith)
]

register-closed : (q : Queue) (name : String) → q.closed ≡ true → (register q name).0 ≡ q
unfolding register
register-closed q name h = ground arith

finish-StaysFrozen :
    (h q : Queue) (n : ℕ) (wrong : Bool) → StaysFrozen h q → StaysFrozen h (finish q n wrong)
unfolding finish both
finish-StaysFrozen h q n wrong v = elim (Option-cases q.inflight) [
  | inl e ↦ rw (e, finish) v
  | inr (x, e) ↦
      rw (e, finish)
        (record {
          old = v.old;
          shut = v.shut;
          same = v.same;
          each_same =
              SameFrozen-update_at h.destinations q.destinations x.destination _ v.each_same;
        })
]

take_next-StaysFrozen : (h q : Queue) → StaysFrozen h q → StaysFrozen h (take_next q)
unfolding take_next take_item
take_next-StaysFrozen h q v = ground (arith, v.old, v.shut, v.same, v.each_same)

step-StaysFrozen : (h q : Queue) (c : Call) → StaysFrozen h q → StaysFrozen h (step q c)
unfolding step close_admission freeze
step-StaysFrozen h q (registers name) v = rw (register-closed q name v.shut) v
step-StaysFrozen h q (enqueues name line) v =
    rw (enqueue-frozen q name line (ap is_none v.same ∙ v.old)) v
step-StaysFrozen h q takes v = take_next-StaysFrozen h q v
step-StaysFrozen h q (finishes n wrong) v = finish-StaysFrozen h q n wrong v
step-StaysFrozen h q closes v = record {
  old = v.old;
  shut = refl;
  same = v.same;
  each_same = v.each_same;
}
step-StaysFrozen h q freezes v = rw (ap is_none v.same ∙ v.old) v

run-StaysFrozen :
    (h : Queue) (cs : List Call) (q : Queue) → StaysFrozen h q → StaysFrozen h (run q cs)
unfolding run
run-StaysFrozen h [] q v = v
run-StaysFrozen h (c ∷ cs) q v = run-StaysFrozen h cs (step q c) (step-StaysFrozen h q c v)

discard_all-closed : (xs : List Item) (q : Queue) → (discard_all xs q).closed ≡ q.closed
unfolding discard_all both
discard_all-closed [] q = refl
discard_all-closed (x ∷ xs) q = discard_all-closed xs _ ∙ kept_closed x.discarded
  where
    kept_closed :
        (gone : Bool)
        → (if gone then q else both (count_discarded (length x.line)) x.destination q).closed
          ≡ q.closed
    kept_closed true = refl
    kept_closed false = refl

discard_inflight-closed : (q : Queue) → (discard_inflight q).closed ≡ q.closed
unfolding discard_inflight both
discard_inflight-closed q = elim (Option-cases q.inflight) [
  | inl e ↦ rw (e, discard_inflight) refl
  | inr (x, e) ↦
      rw (e, discard_inflight)
        (elim (Bool-cases x.discarded) [ inl gone ↦ rw gone refl | inr live ↦ rw live refl ])
]

-- The end of `Freeze`, on a queue that admits nothing.
fixed-StaysFrozen :
    (q : Queue)
    → q.closed ≡ true
    → let h : Queue = record q {
      frozen = some q.stats;
      destinations = freeze_each q.destinations;
    } in
      StaysFrozen h h
fixed-StaysFrozen q e = record {
  old = refl;
  shut = e;
  same = refl;
  each_same = SameFrozen-freeze_each q.destinations;
}

freeze-StaysFrozen : (q : Queue) → is_none q.frozen ≡ true → StaysFrozen (freeze q) (freeze q)
unfolding freeze
freeze-StaysFrozen q e =
    let given_up : Queue = record (discard_all q.items (record q { closed = true })) {
      items = [];
    } in
    let done = discard_inflight-closed given_up ∙ discard_all-closed q.items _ in
    rw e (fixed-StaysFrozen (discard_inflight given_up) done)

-- Once a queue is frozen whose ledger balances, it reports nothing pending, and after any further
-- calls and rounds of its runner it reports the same stats, its own and those of the destination at
-- each place, with no destination more.
pub freeze_fixes :
    (limit : ℕ) (small : limit < u64_mod) (q : Queue) (cs : List Call) (i : ℕ)
    → IsSound limit q
    → is_none q.frozen ≡ true
    → let h = freeze q in
      let r = run h cs in
      (queue_stats r ≡ queue_stats h)
      × (destination_stats r i ≡ destination_stats h i)
      × ((queue_stats h).pending ≡ 0)
unfolding queue_stats destination_stats stats_at
freeze_fixes limit small q cs i sound e =
    let settled = freeze-pending limit small q sound e in
    let v = run-StaysFrozen (freeze q) cs (freeze q) (freeze-StaysFrozen q e) in
    (
      ap (λ f. frozen_or f (run (freeze q) cs).stats) (v.same ∙ settled.1)
          ∙ sym (ap (λ f. frozen_or f (freeze q).stats) settled.1),
      SameFrozen-stats_at _ _ i v.each_same,
      ap (λ f. (frozen_or f (freeze q).stats).pending) settled.1 ∙ settled.0,
    )

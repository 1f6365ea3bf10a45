-- ===== src/Sink/Ledger/Runs.antt =====
-- The ledger over any interleaving of the calls of sink/queue.go and its runner.
use edge_observer.Prelude.{
  Option, ℕ, zero, suc, ◌<◌, ◌≡◌, refl, true, List, [], ◌∷◌, Option, some, arith, u64_mod, is_none,
  Option-cases, Bool-cases, inl, inr,
}
use edge_observer.Sink.State.{Stats, Destination, Item, Queue, both}
use edge_observer.Sink.{
  Call, registers, enqueues, takes, finishes, closes, freezes, new_queue, close_admission,
  discard_all, discard_inflight, freeze_each, freeze, step, run,
}
use edge_observer.Sink.Ledger.{AllConserved, Balances, IsSound}
use edge_observer.Sink.Ledger.Admitted.{enqueue-IsSound, register-IsSound}
use edge_observer.Sink.Ledger.Worked.{
  take_next-IsSound, finish-IsSound, discard_all-Balances, discard_inflight-Balances,
}

module _ (limit : ℕ) (small : limit < u64_mod) where
  AllConserved-freeze_each :
      (ds : List Destination) → AllConserved ds → AllConserved (freeze_each ds)
  unfolding freeze_each
  AllConserved-freeze_each [] c = tt
  AllConserved-freeze_each (d ∷ ds) c = (c.0, AllConserved-freeze_each ds c.1)

  frozen-Balances :
      (y : Option Item) (s : Stats) (ds : List Destination)
      → Balances limit [] y s ds
      → Balances limit [] y s (freeze_each ds)
  frozen-Balances y s ds v = record {
    limited = v.limited;
    conserved = v.conserved;
    each_conserved = AllConserved-freeze_each ds v.each_conserved;
    waiting = tt;
    inflight_waiting = v.inflight_waiting;
    bytes_count = v.bytes_count;
    pending_count = v.pending_count;
    high = v.high;
    within = v.within;
  }

  -- `Freeze` gives up the line in flight after it has emptied the queue.
  discard_inflight-items : (q : Queue) → (discard_inflight q).items ≡ q.items
  unfolding discard_inflight both
  discard_inflight-items q = elim (Option-cases q.inflight) [
    | inl e ↦ rw (e, discard_inflight) refl
    | inr (x, e) ↦ elim (Bool-cases x.discarded) [
      | inl gone ↦ rw (e, discard_inflight) (rw gone refl)
      | inr live ↦ rw (e, discard_inflight) (rw live refl)
    ]
  ]

  freeze-IsSound : (q : Queue) → IsSound limit q → IsSound limit (freeze q)
  unfolding freeze
  freeze-IsSound q v = elim (Bool-cases (is_none q.frozen)) [
    | inr old ↦ rw old v
    | inl live ↦
        let shut : Queue = record q { closed = true } in
        let given_up : Queue = record (discard_all q.items shut) { items = [] } in
        let emptied = discard_all-Balances limit small q.items shut v in
        let done = discard_inflight-Balances limit small given_up emptied.0 in
        rw live (rw discard_inflight-items (frozen-Balances _ _ _ done.0))
  ]

  -- Freezing leaves nothing pending, and the stats it fixes are those it leaves.
  pub freeze-pending :
      (q : Queue)
      → IsSound limit q
      → is_none q.frozen ≡ true
      → ((freeze q).stats.pending ≡ 0) × ((freeze q).frozen ≡ some ((freeze q).stats))
  unfolding freeze
  freeze-pending q v e =
      let shut : Queue = record q { closed = true } in
      let given_up : Queue = record (discard_all q.items shut) { items = [] } in
      let emptied = discard_all-Balances limit small q.items shut v in
      let done = discard_inflight-Balances limit small given_up emptied.0 in
      rw e (omega (arith, done.0.pending_count, done.1), refl)

  step-IsSound : (q : Queue) (c : Call) → IsSound limit q → IsSound limit (step q c)
  unfolding step close_admission
  step-IsSound q (registers name) v = register-IsSound limit small q name v
  step-IsSound q (enqueues name line) v = enqueue-IsSound limit small q name line v
  step-IsSound q takes v = take_next-IsSound limit small q v
  step-IsSound q (finishes n wrong) v = finish-IsSound limit small q n wrong v
  step-IsSound q closes v = v
  step-IsSound q freezes v = freeze-IsSound q v

  run-IsSound : (cs : List Call) (q : Queue) → IsSound limit q → IsSound limit (run q cs)
  unfolding run
  run-IsSound [] q v = v
  run-IsSound (c ∷ cs) q v = run-IsSound cs (step q c) (step-IsSound q c v)

  -- After any calls on a new queue whose limit is below 2^64, and any rounds of its runner:
  -- `Authorized = Written + Failed + Dropped + Pending` holds modulo 2^64 of the queue and of each
  -- destination, no line queued is empty or discarded, `PendingBytes` is the bytes of the lines queued
  -- and in flight, `Pending` is the number of those not discarded, and `PendingBytes` is at most
  -- `HighWaterBytes`, which is at most the limit.
  pub new_queue-IsSound :
      (q : Queue) (cs : List Call) → new_queue limit ≡ some q → IsSound limit (run q cs)
  unfolding new_queue
  new_queue-IsSound q cs e = run-IsSound cs q (start limit refl e)
    where
      start : (n : ℕ) → n ≡ limit → new_queue n ≡ some q → IsSound limit q
      start zero h e = cc
      start (suc n) h e = ground arith

-- ===== src/Sink/Ledger/Worked.antt =====
-- The ledger is kept by the runner of sink/queue.go, and by the discarding of queued lines.
use edge_observer.Prelude.{
  ℕ, ◌<◌, ◌≡◌, refl, Bool, true, false, List, [], ◌∷◌, Option, none, some, arith, if◌then◌else◌,
  length, sub64, u64_mod, is_none, Option-cases, Bool-cases, inl, inr,
}
use edge_observer.Sink.State.{Stats, Destination, Item, Queue, update_at, both}
use edge_observer.Sink.{
  take_item, take_next, count_finished, finish, count_discarded, discard_all, discard_inflight,
}
use edge_observer.Sink.Ledger.{
  inflight_pending, Balances, IsSound, update_at-AllConserved, finished-Conserved,
  discarded-Conserved, length-le-line_bytes, inflight_pending-le,
}

module _ (limit : ℕ) (small : limit < u64_mod) where
  pub taken-Balances :
      (x : Item) (xs : List Item) (s : Stats) (ds : List Destination)
      → Balances limit (x ∷ xs) none s ds
      → Balances limit xs (some x) s ds
  taken-Balances x xs s ds v = ground (
    arith, v.waiting, v.bytes_count, v.pending_count, v.limited, v.conserved, v.each_conserved,
    v.high, v.within,
  )

  pub finished-Balances :
      (x : Item) (n : ℕ) (wrong : Bool) (xs : List Item) (s : Stats) (ds : List Destination)
      → Balances limit xs (some x) s ds
      → Balances limit xs none
          (count_finished x n wrong s)
          (update_at ds x.destination (count_finished x n wrong))
  finished-Balances x n wrong xs s ds v = record {
    limited = unfold count_finished in ground (arith, v.limited);
    conserved = finished-Conserved x n wrong s v.conserved;
    each_conserved =
        update_at-AllConserved _ ds x.destination (finished-Conserved x n wrong) v.each_conserved;
    waiting = v.waiting;
    inflight_waiting = tt;
    bytes_count = unfold count_finished in ground (arith, v.bytes_count);
    pending_count =
        unfold count_finished sub64 in
        ground (
          arith,
          v.pending_count,
          v.bytes_count,
          v.high,
          v.within,
          length-le-line_bytes xs v.waiting,
          v.inflight_waiting,
        );
    high = unfold count_finished in ground (arith, v.high);
    within = unfold count_finished in ground (arith, v.within);
  }

  pub take_next-IsSound : (q : Queue) → IsSound limit q → IsSound limit (take_next q)
  unfolding take_next
  take_next-IsSound q v = split q.items q.inflight refl refl
    where
      split :
          (xs : List Item) (y : Option Item)
          → q.items ≡ xs
          → q.inflight ≡ y
          → IsSound limit (if is_none y then take_item q xs else q)
      split xs (some y) e f = v
      split [] none e f = v
      split (x ∷ xs) none e f = taken-Balances x xs q.stats q.destinations (rw (e, f) at v)

  pub finish-IsSound :
      (q : Queue) (n : ℕ) (wrong : Bool) → IsSound limit q → IsSound limit (finish q n wrong)
  unfolding finish
  finish-IsSound q n wrong v = elim (Option-cases q.inflight) [
    | inl e ↦ rw (e, finish) v
    | inr (x, e) ↦
        rw (e, finish) (finished-Balances x n wrong q.items q.stats q.destinations (rw e at v))
  ]

  pub discarded-Balances :
      (x : Item) (xs : List Item) (y : Option Item) (s : Stats) (ds : List Destination)
      → Balances limit (x ∷ xs) y s ds
      → Balances limit xs y
          (count_discarded (length x.line) s)
          (update_at ds x.destination (count_discarded (length x.line)))
  discarded-Balances x xs y s ds v = record {
    limited = unfold count_discarded in v.limited;
    conserved = discarded-Conserved (length x.line) s v.conserved;
    each_conserved =
        update_at-AllConserved _ ds x.destination (discarded-Conserved (length x.line))
          v.each_conserved;
    waiting = v.waiting.2;
    inflight_waiting = v.inflight_waiting;
    bytes_count = unfold count_discarded in omega (arith, v.bytes_count);
    pending_count =
        unfold count_discarded sub64 in
        omega (
          arith,
          v.pending_count,
          v.bytes_count,
          v.high,
          v.within,
          length-le-line_bytes (x ∷ xs) v.waiting,
          inflight_pending-le y v.inflight_waiting,
        );
    high = unfold count_discarded in omega (arith, v.high);
    within = unfold count_discarded in v.within;
  }

  pub discard_all-Balances :
      (xs : List Item) (q : Queue)
      → Balances limit xs q.inflight q.stats q.destinations
      → let r = discard_all xs q in
        Balances limit [] r.inflight r.stats r.destinations × (r.inflight ≡ q.inflight)
  unfolding discard_all both
  discard_all-Balances [] q v = (v, refl)
  discard_all-Balances (x ∷ xs) q v = rw v.waiting.0 (
      discard_all-Balances xs (both (count_discarded (length x.line)) x.destination q)
        (discarded-Balances x xs q.inflight q.stats q.destinations v))

  pub inflight-Balances :
      (x : Item) (s : Stats) (ds : List Destination)
      → x.discarded ≡ false
      → Balances limit [] (some x) s ds
      → Balances limit []
          (some (record x { discarded = true }))
          (count_discarded 0 s)
          (update_at ds x.destination (count_discarded 0))
  inflight-Balances x s ds e v = record {
    limited = unfold count_discarded in v.limited;
    conserved = discarded-Conserved 0 s v.conserved;
    each_conserved =
        update_at-AllConserved _ ds x.destination (discarded-Conserved 0) v.each_conserved;
    waiting = tt;
    inflight_waiting = v.inflight_waiting;
    bytes_count = unfold count_discarded in omega (arith, v.bytes_count);
    pending_count = unfold count_discarded sub64 in ground (arith, v.pending_count);
    high = unfold count_discarded in omega (arith, v.high);
    within = unfold count_discarded in v.within;
  }

  -- Nothing is pending once the line in flight is discarded too.
  pub discard_inflight-Balances :
      (q : Queue)
      → Balances limit [] q.inflight q.stats q.destinations
      → let r = discard_inflight q in
        Balances limit [] r.inflight r.stats r.destinations × (inflight_pending r.inflight ≡ 0)
  unfolding discard_inflight both
  discard_inflight-Balances q v = elim (Option-cases q.inflight) [
    | inl e ↦ rw (e, discard_inflight) (v, rw e)
    | inr (x, e) ↦
        rw (e, discard_inflight)
          (elim (Bool-cases x.discarded) [
            | inl gone ↦ rw gone (v, rw e (rw gone))
            | inr live ↦ rw live (inflight-Balances x q.stats q.destinations live (rw e at v), refl)
          ])
  ]

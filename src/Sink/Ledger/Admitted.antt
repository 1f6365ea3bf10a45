-- ===== src/Sink/Ledger/Admitted.antt =====
-- The ledger is kept by `register` and `enqueue` of sink/queue.go.
use Prim.Native.String.{String}
use edge_observer.Prelude.{
  ℕ, ◌+◌, ◌-◌, ◌≤◌, ◌<◌, refl, false, List, [], ◌∷◌, ◌++◌, none, arith, length, length-append,
  add64, u64_mod, is_none, Option-cases, Bool-cases, inl, inr, ltb,
}
use edge_observer.Sink.State.{
  Destination, Item, Queue, empty_stats, both, count_authorized, count_dropped,
}
use edge_observer.Sink.{find, register, ends_line, count_pending, admit_line, enqueue}
use edge_observer.Sink.Ledger.{
  IsSound, update_at-AllConserved, update_at-twice, dropped-Conserved, pending-Conserved,
  AllConserved-append, AllWaiting-append, line_bytes-append, length-le-line_bytes,
  inflight_pending-le, ends_line-pos,
}

module _ (limit : ℕ) (small : limit < u64_mod) where
  pub dropped-IsSound :
      (q : Queue) (i : ℕ)
      → IsSound limit q
      → IsSound limit (both count_dropped i (both count_authorized i q))
  unfolding both count_dropped count_authorized
  dropped-IsSound q i v = record {
    limited = v.limited;
    conserved = dropped-Conserved q.stats v.conserved;
    each_conserved =
        rw update_at-twice
          (update_at-AllConserved _ q.destinations i dropped-Conserved v.each_conserved);
    waiting = v.waiting;
    inflight_waiting = v.inflight_waiting;
    bytes_count = v.bytes_count;
    pending_count = v.pending_count;
    high = v.high;
    within = v.within;
  }

  pub pending-IsSound :
      (q : Queue) (i : ℕ) (line : List ℕ)
      → IsSound limit q
      → 0 < length line
      → q.stats.pending_bytes + length line ≤ q.stats.limit_bytes
      → IsSound limit (
          both (count_pending (length line)) i (record (both count_authorized i q) {
            items = q.items ++ (record { destination = i; line = line; discarded = false } ∷ []);
          }))
  unfolding both count_pending count_authorized add64
  pending-IsSound q i line v some_bytes fits =
      let x : Item = record { destination = i; line = line; discarded = false } in
      let bytes = line_bytes-append q.items (x ∷ []) in
      let lines = length-append q.items (x ∷ []) in
      let few = length-le-line_bytes q.items v.waiting in
      let one = inflight_pending-le q.inflight v.inflight_waiting in
      record {
        limited = v.limited;
        conserved = pending-Conserved (length line) q.stats v.conserved;
        each_conserved = rw update_at-twice (
            update_at-AllConserved _ q.destinations i (pending-Conserved (length line))
              v.each_conserved);
        waiting = AllWaiting-append q.items (x ∷ []) v.waiting (refl, some_bytes, tt);
        inflight_waiting = v.inflight_waiting;
        bytes_count = omega (arith, v.bytes_count);
        pending_count = omega (arith, v.pending_count, v.bytes_count, v.limited);
        high = ground arith;
        within = ground (arith, v.within, v.limited);
      }

  pub admit_line-IsSound :
      (q : Queue) (i : ℕ) (line : List ℕ)
      → IsSound limit q
      → 0 < length line
      → IsSound limit (admit_line (both count_authorized i q) i line).0
  unfolding admit_line both count_authorized
  admit_line-IsSound q i line v h = elim (Bool-cases q.closed) [
    | inl shut ↦ rw shut (dropped-IsSound q i v)
    | inr open_ ↦
        rw open_
          (elim (Bool-cases (ltb (q.stats.limit_bytes - q.stats.pending_bytes) (length line))) [
            | inl full ↦ rw full (dropped-IsSound q i v)
            | inr room ↦
                rw room (pending-IsSound q i line v h (ground (arith, v.high, v.within, v.limited)))
          ])
  ]

  pub enqueue-IsSound :
      (q : Queue) (name : String) (line : List ℕ)
      → IsSound limit q
      → IsSound limit (enqueue q name line).0
  unfolding enqueue
  enqueue-IsSound q name line v = elim (Option-cases (find name q.destinations)) [
    | inl e ↦ rw (e, enqueue) v
    | inr (i, e) ↦
        rw (e, enqueue)
          (elim (Bool-cases (ends_line line)) [
            | inr cut ↦ rw cut v
            | inl whole ↦ rw whole (elim (Bool-cases (is_none q.frozen)) [
              | inr old ↦ rw old v
              | inl live ↦ rw live (admit_line-IsSound q i line v (ends_line-pos line whole))
            ])
          ])
  ]

  pub register-IsSound :
      (q : Queue) (name : String) → IsSound limit q → IsSound limit (register q name).0
  unfolding register
  register-IsSound q name v =
      let d : Destination = record {
        name = name;
        stats = empty_stats q.stats.limit_bytes;
        dirty = false;
        frozen = none;
        final = false;
      } in
      ground (
        arith,
        v.limited,
        v.conserved,
        v.each_conserved,
        v.waiting,
        v.inflight_waiting,
        v.bytes_count,
        v.pending_count,
        v.high,
        v.within,
        AllConserved-append q.destinations (d ∷ []) v.each_conserved,
      )

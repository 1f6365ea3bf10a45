-- ===== src/Sink.antt =====
-- sink/queue.go: the queue that delivers processed lines to their
-- destinations under one byte bound.
--
-- Each function is what its method does under the queue's mutex; the runner's loop is two of them,
-- `take_next` and `finish`, with the write between them done by the destination. What the write
-- answered is an argument of `finish`. Waiting, wake-ups, contexts and the closing of files are left
-- out; a nil queue, which refuses everything, too.
pub mod State
pub mod Ledger
pub mod Frozen
pub mod Lines
mod Tests
use Prim.Native.String.{String}
use text.Mathlib.Text.{◌==◌ as str_eq}
use edge_observer.Prelude.{
  ℕ, zero, suc, ◌+◌, ◌-◌, Bool, true, false, ◌&&◌, ◌||◌, not, List, [], ◌∷◌, ◌++◌, Option, none,
  some, ◌==◌, ltb, if◌then◌else◌, get_elem?, length, add64, sub64, is_none,
}
use State.{
  Stats, Destination, Item, Queue, empty_stats, update_at, both, count_authorized, count_dropped,
}

pub data Error : Type 0 where
  queue_full closed unknown_destination incomplete_line duplicate : Error

-- `newQueue`, for a bound that is not negative.
pub new_queue : ℕ → Option Queue
new_queue zero = none
new_queue (suc n) = some (record {
  destinations = [];
  items = [];
  inflight = none;
  stats = empty_stats (suc n);
  closed = false;
  closing = false;
  frozen = none;
})

-- `st.destinations[name]`, as its place.
pub find : String → List Destination → Option ℕ
find name [] = none
find name (d ∷ ds) =
    let later = find name ds in
    if str_eq d.name name then some 0 else elim later [ none ↦ none | some i ↦ some (i + 1) ]

-- `register`.
pub register : Queue → String → Queue × Option Error
register q name =
    if str_eq name ""
    then (q, some closed)
    else if q.closed
    then (q, some closed)
    else elim (find name q.destinations) [
      | some i ↦ (q, some duplicate)
      | none ↦ (
        record q {
          destinations =
              q.destinations
              ++ (record {
                name = name;
                stats = empty_stats q.stats.limit_bytes;
                dirty = false;
                frozen = none;
                final = false;
              }
                  ∷ []);
        },
        none,
      )
    ]

-- `line[len(line)-1] == '\n'`, of a line that is not empty.
pub ends_line : List ℕ → Bool
ends_line [] = false
ends_line (c ∷ []) = c == b'\n'
ends_line (c ∷ d ∷ cs) = ends_line (d ∷ cs)

pub count_pending : ℕ → Stats → Stats
count_pending n s = record s {
  pending = add64 s.pending 1;
  pending_bytes = s.pending_bytes + n;
  high_water_bytes =
      if ltb s.high_water_bytes (s.pending_bytes + n)
      then s.pending_bytes + n
      else s.high_water_bytes;
}

pub admit_line : Queue → ℕ → List ℕ → Queue × Option Error
unfolding count_pending both count_dropped
admit_line q i line =
    if q.closed
    then (both count_dropped i q, some closed)
    else if ltb (q.stats.limit_bytes - q.stats.pending_bytes) (length line)
    then (both count_dropped i q, some queue_full)
    else (
      both (count_pending (length line)) i (record q {
        items = q.items ++ (record { destination = i; line = line; discarded = false } ∷ []);
      }),
      none,
    )

-- `enqueue`.
pub enqueue : Queue → String → List ℕ → Queue × Option Error
unfolding admit_line both count_authorized
enqueue q name line = elim (find name q.destinations) [
  | none ↦ (q, some unknown_destination)
  | some i ↦
      if not (ends_line line)
      then (q, some incomplete_line)
      else if not (is_none q.frozen)
      then (q, some closed)
      else admit_line (both count_authorized i q) i line
]

pub take_item : Queue → List Item → Queue
take_item q [] = q
take_item q (x ∷ xs) = record q { items = xs; inflight = some x }

-- The head of the runner's loop. The runner takes no line while one is in flight.
pub take_next : Queue → Queue
unfolding take_item
take_next q = if is_none q.inflight then take_item q q.items else q

pub count_finished : Item → ℕ → Bool → Stats → Stats
count_finished x n wrong s =
    if x.discarded
    then record s { pending_bytes = s.pending_bytes - length x.line }
    else if wrong
    then record s {
      pending_bytes = s.pending_bytes - length x.line;
      pending = sub64 s.pending 1;
      bytes = add64 s.bytes n;
      failed = add64 s.failed 1;
    }
    else record s {
      pending_bytes = s.pending_bytes - length x.line;
      pending = sub64 s.pending 1;
      bytes = add64 s.bytes n;
      written = add64 s.written 1;
    }

-- The tail of the runner's loop, once the write has accepted `n` bytes, and failed if `wrong`.
pub finish : Queue → ℕ → Bool → Queue
unfolding count_finished both
finish q n wrong = elim q.inflight [
  | none ↦ q
  | some x ↦ record (both (count_finished x n wrong) x.destination q) { inflight = none }
]

-- `CloseAdmission`.
pub close_admission : Queue → Queue
close_admission q = record q { closed = true }

pub count_discarded : ℕ → Stats → Stats
count_discarded n s = record s {
  pending = sub64 s.pending 1;
  dropped = add64 s.dropped 1;
  discarded = add64 s.discarded 1;
  pending_bytes = s.pending_bytes - n;
}

-- `discard` on each queued line.
pub discard_all : List Item → Queue → Queue
unfolding count_discarded both
discard_all [] q = q
discard_all (x ∷ xs) q =
    discard_all xs
      (if x.discarded then q else both (count_discarded (length x.line)) x.destination q)

-- `discard` on the line in flight, whose bytes stay held.
pub discard_inflight : Queue → Queue
unfolding count_discarded both
discard_inflight q = elim q.inflight [
  | none ↦ q
  | some x ↦ if x.discarded then q else record (both (count_discarded 0) x.destination q) {
    inflight = some (record x { discarded = true });
  }
]

pub freeze_each : List Destination → List Destination
freeze_each [] = []
freeze_each (d ∷ ds) = record d { frozen = some d.stats } ∷ freeze_each ds

-- `Freeze`.
pub freeze : Queue → Queue
unfolding discard_all discard_inflight freeze_each
freeze q =
    if not (is_none q.frozen)
    then q
    else let given_up = record (discard_all q.items (record q { closed = true })) { items = [] } in
      let done = discard_inflight given_up in
      record done { frozen = some done.stats; destinations = freeze_each done.destinations }

abbrev frozen_or : Option Stats → Stats → Stats
frozen_or none s = s
frozen_or (some f) s = f

-- `Stats`.
pub queue_stats : Queue → Stats
queue_stats q = frozen_or q.frozen q.stats

-- `DestinationStats`, of the destination at a place.
pub destination_stats : Queue → ℕ → Option Stats
destination_stats q i = elim (get_elem? q.destinations i) [
  | none ↦ none
  | some d ↦ some (frozen_or d.frozen d.stats)
]

-- One call on the queue, or one half of a round of its runner.
pub data Call : Type 0 where
  registers : String → Call
  enqueues : String → List ℕ → Call
  takes : Call
  finishes : ℕ → Bool → Call
  closes freezes : Call

pub step : Queue → Call → Queue
step q (registers name) = (register q name).0
step q (enqueues name line) = (enqueue q name line).0
step q takes = take_next q
step q (finishes n wrong) = finish q n wrong
step q closes = close_admission q
step q freezes = freeze q

pub run : Queue → List Call → Queue
run q [] = q
run q (c ∷ cs) = run (step q c) cs

-- ===== src/Sink/Tests.antt =====
-- The queue's accounting at a concrete queue.
use edge_observer.Prelude.{
  is_none, ◌≡◌, refl, false, List, [], ◌∷◌, none, some, arith, add64, sub64, true,
}
use edge_observer.Sink.State.{Queue, empty_stats, update_at, both, count_authorized, count_dropped}
use edge_observer.Sink.{
  queue_stats, destination_stats, Call, registers, enqueues, takes, finishes, freezes, new_queue,
  find, register, ends_line, count_pending, admit_line, enqueue, take_item, take_next,
  count_finished, finish, count_discarded, discard_all, discard_inflight, freeze_each, freeze, step,
  run,
}
use edge_observer.Sink.Frozen.{freeze_fixes}
use edge_observer.Sink.Ledger.{IsSound}
use edge_observer.Sink.Ledger.Runs.{new_queue-IsSound}

abbrev eight_bytes : Queue
eight_bytes = record {
  destinations = [];
  items = [];
  inflight = none;
  stats = empty_stats 8;
  closed = false;
  closing = false;
  frozen = none;
}

eight_bytes-new : new_queue 8 ≡ some eight_bytes
unfolding new_queue
eight_bytes-new = refl

-- Three lines, the last with no room; one is in flight when the queue freezes.
abbrev busy : List Call
busy =
    registers "file"
    ∷ enqueues "file" (65 ∷ 66 ∷ 10 ∷ [])
    ∷ enqueues "file" (67 ∷ 10 ∷ [])
    ∷ enqueues "file" (65 ∷ 66 ∷ 67 ∷ 10 ∷ [])
    ∷ enqueues "file" (67 ∷ [])
    ∷ takes
    ∷ freezes
    ∷ finishes 3 false
    ∷ []

busy_discarded : (run eight_bytes busy).stats.discarded ≡ 2
unfolding run step register find enqueue ends_line admit_line both update_at count_authorized
    count_dropped count_pending take_next take_item freeze discard_all discard_inflight
    count_discarded freeze_each finish count_finished add64 sub64
busy_discarded = refl

busy_dropped : (run eight_bytes busy).stats.dropped ≡ 3
unfolding run step register find enqueue ends_line admit_line both update_at count_authorized
    count_dropped count_pending take_next take_item freeze discard_all discard_inflight
    count_discarded freeze_each finish count_finished add64 sub64
busy_dropped = refl

new_queue-IsSound_example : IsSound 8 (run eight_bytes busy)
new_queue-IsSound_example = new_queue-IsSound 8 (omega arith) eight_bytes busy eight_bytes-new

abbrev before_freeze : List Call
before_freeze =
    registers "file"
    ∷ enqueues "file" (65 ∷ 66 ∷ 10 ∷ [])
    ∷ enqueues "file" (67 ∷ 10 ∷ [])
    ∷ takes
    ∷ []

abbrev before_queue : Queue
before_queue = run eight_bytes before_freeze

abbrev after_freeze : List Call
after_freeze = finishes 3 false ∷ registers "late" ∷ enqueues "file" (68 ∷ 10 ∷ []) ∷ takes ∷ []

before_live : is_none before_queue.frozen ≡ true
unfolding run step register find enqueue ends_line admit_line both update_at count_authorized
    count_dropped count_pending take_next take_item add64
before_live = refl

freeze_fixes_example :
    let h = freeze before_queue in
    let r = run h after_freeze in
    (queue_stats r ≡ queue_stats h)
    × (destination_stats r 0 ≡ destination_stats h 0)
    × ((queue_stats h).pending ≡ 0)
freeze_fixes_example =
    freeze_fixes 8 (omega arith) before_queue after_freeze 0
      (new_queue-IsSound 8 (omega arith) eight_bytes before_freeze eight_bytes-new) before_live

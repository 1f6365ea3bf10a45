-- ===== src/Sink/Ledger.antt =====
-- The queue's accounting, over any interleaving of its calls and its runner.
pub mod Admitted
pub mod Worked
pub mod Runs
use Prim.Native.String.{String}
use edge_observer.Prelude.{
  ℕ, zero, suc, ◌+◌, ◌-◌, ◌%◌, ◌≤◌, ◌<◌, ◌≡◌, ◌≢◌, refl, ap, sym, ◌∙◌, Bool, true, false, not, List,
  [], ◌∷◌, ◌++◌, Option, none, some, arith, if◌then◌else◌, length, length-append, add64, sub64,
  u64_mod, is_none, Option-cases, Bool-cases, inl, inr, ltb,
}
use edge_observer.Sink.State.{
  Stats, Destination, Item, Queue, empty_stats, update_at, both, count_authorized, count_dropped,
}
use edge_observer.Sink.{
  Call, registers, enqueues, takes, finishes, closes, freezes, new_queue, find, register, ends_line,
  count_pending, admit_line, enqueue, take_item, take_next, count_finished, finish, close_admission,
  count_discarded, discard_all, discard_inflight, freeze_each, freeze, step, run,
}

-- `Authorized = Written + Failed + Dropped + Pending`, as uint64.
abbrev pub Conserved : Stats → Type 0
Conserved s = s.authorized ≡ (s.written + s.failed + s.dropped + s.pending) % u64_mod

abbrev pub AllConserved : List Destination → Type 0
AllConserved [] = Unit {0}
AllConserved (d ∷ ds) = Conserved d.stats × AllConserved ds

-- Queued lines: none is discarded or empty.
abbrev pub AllWaiting : List Item → Type 0
AllWaiting [] = Unit {0}
AllWaiting (x ∷ xs) = (x.discarded ≡ false) × (0 < length x.line) × AllWaiting xs

abbrev pub line_bytes : List Item → ℕ
line_bytes [] = 0
line_bytes (x ∷ xs) = length x.line + line_bytes xs

abbrev pub inflight_bytes : Option Item → ℕ
inflight_bytes none = 0
inflight_bytes (some x) = length x.line

abbrev pub inflight_pending : Option Item → ℕ
inflight_pending none = 0
inflight_pending (some x) = if x.discarded then 0 else 1

abbrev pub InflightWaiting : Option Item → Type 0
InflightWaiting none = Unit {0}
InflightWaiting (some x) = 0 < length x.line

-- The ledger of a queue with these lines queued, this one in flight, and these counters.
pub record Balances (limit : ℕ) (xs : List Item) (x : Option Item) (s : Stats)
    (ds : List Destination) : Type 0 where
  pub limited : s.limit_bytes ≡ limit
  pub conserved : Conserved s
  pub each_conserved : AllConserved ds
  pub waiting : AllWaiting xs
  pub inflight_waiting : InflightWaiting x
  pub bytes_count : s.pending_bytes ≡ line_bytes xs + inflight_bytes x
  pub pending_count : s.pending ≡ length xs + inflight_pending x
  pub high : s.pending_bytes ≤ s.high_water_bytes
  pub within : s.high_water_bytes ≤ limit

abbrev pub IsSound : ℕ → Queue → Type 0
IsSound limit q = Balances limit q.items q.inflight q.stats q.destinations

pub update_at-AllConserved :
    (f : Stats → Stats) (ds : List Destination) (i : ℕ)
    → ((s : Stats) → Conserved s → Conserved (f s))
    → AllConserved ds
    → AllConserved (update_at ds i f)
unfolding update_at
update_at-AllConserved f [] i k c = tt
update_at-AllConserved f (d ∷ ds) zero k c = (k d.stats c.0, c.1)
update_at-AllConserved f (d ∷ ds) (suc i) k c = (c.0, update_at-AllConserved f ds i k c.1)

pub update_at-twice :
    (f g : Stats → Stats) (ds : List Destination) (i : ℕ)
    → update_at (update_at ds i f) i g ≡ update_at ds i (λ s. g (f s))
unfolding update_at
update_at-twice f g [] i = refl
update_at-twice f g (d ∷ ds) zero = refl
update_at-twice f g (d ∷ ds) (suc i) = ap (◌∷◌ d) (update_at-twice f g ds i)

-- A line counted and then dropped, or counted and then pending.
pub dropped-Conserved : (s : Stats) → Conserved s → Conserved (count_dropped (count_authorized s))
unfolding count_dropped count_authorized add64
dropped-Conserved s c = omega arith

pub pending-Conserved :
    (n : ℕ) (s : Stats) → Conserved s → Conserved (count_pending n (count_authorized s))
unfolding count_pending count_authorized add64
pending-Conserved n s c = omega arith

pub finished-Conserved :
    (x : Item) (n : ℕ) (wrong : Bool) (s : Stats)
    → Conserved s
    → Conserved (count_finished x n wrong s)
unfolding count_finished add64 sub64
finished-Conserved x n wrong s c = ground arith

pub discarded-Conserved : (n : ℕ) (s : Stats) → Conserved s → Conserved (count_discarded n s)
unfolding count_discarded add64 sub64
discarded-Conserved n s c = omega arith

pub AllConserved-append :
    (ds es : List Destination) → AllConserved ds → AllConserved es → AllConserved (ds ++ es)
AllConserved-append [] es p q = q
AllConserved-append (d ∷ ds) es p q = (p.0, AllConserved-append ds es p.1 q)

pub AllWaiting-append : (xs ys : List Item) → AllWaiting xs → AllWaiting ys → AllWaiting (xs ++ ys)
AllWaiting-append [] ys p q = q
AllWaiting-append (x ∷ xs) ys p q = (p.0, p.1, AllWaiting-append xs ys p.2 q)

pub line_bytes-append : (xs ys : List Item) → line_bytes (xs ++ ys) ≡ line_bytes xs + line_bytes ys
line_bytes-append [] ys = omega arith
line_bytes-append (x ∷ xs) ys = omega (arith, line_bytes-append xs ys)

-- Each queued line has a byte, so that the lines pending are no more than the bytes.
pub length-le-line_bytes : (xs : List Item) → AllWaiting xs → length xs ≤ line_bytes xs
length-le-line_bytes [] w = omega arith
length-le-line_bytes (x ∷ xs) w = omega (arith, length-le-line_bytes xs w.2)

pub inflight_pending-le :
    (x : Option Item) → InflightWaiting x → inflight_pending x ≤ inflight_bytes x
inflight_pending-le none w = omega arith
inflight_pending-le (some x) w = ground arith

pub ends_line-pos : (line : List ℕ) → ends_line line ≡ true → 0 < length line
unfolding ends_line
ends_line-pos [] e = cc
ends_line-pos (c ∷ cs) e = omega arith

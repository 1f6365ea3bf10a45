-- ===== src/Sink/State.antt =====
-- sink/sink.go and sink/queue.go, the types: the shared queue, its destinations and their counters.
-- Counters are uint64, and `Bytes` an int64 kept as its 64-bit pattern. Pending bytes are int64; what
-- is taken off them was added before, so that they are natural numbers here.
use Prim.Native.String.{String}
use edge_observer.Prelude.{ℕ, zero, suc, Bool, List, [], ◌∷◌, Option, add64}

-- `Stats`.
pub record Stats : Type 0 where
  pub authorized : ℕ
  pub written : ℕ
  pub failed : ℕ
  pub dropped : ℕ
  pub pending : ℕ
  pub discarded : ℕ
  pub bytes : ℕ
  pub pending_bytes : ℕ
  pub high_water_bytes : ℕ
  pub limit_bytes : ℕ

-- `destination`, less the sink itself and its boundary; `final_line` is used by `WriteFinal` alone.
pub record Destination : Type 0 where
  pub name : String
  pub stats : Stats
  pub dirty : Bool
  pub frozen : Option Stats
  pub final : Bool

-- `queued`. Its destination is a pointer, the place in the queue's destinations.
pub record Item : Type 0 where
  pub destination : ℕ
  pub line : List ℕ
  pub discarded : Bool

-- `queueState`, less its channels.
pub record Queue : Type 0 where
  pub destinations : List Destination
  pub items : List Item
  pub inflight : Option Item
  pub stats : Stats
  pub closed : Bool
  pub closing : Bool
  pub frozen : Option Stats

abbrev pub empty_stats : ℕ → Stats
empty_stats limit = record {
  authorized = 0;
  written = 0;
  failed = 0;
  dropped = 0;
  pending = 0;
  discarded = 0;
  bytes = 0;
  pending_bytes = 0;
  high_water_bytes = 0;
  limit_bytes = limit;
}

-- The stats of the destination at place `i` changed by `f`.
unfoldable pub update_at : List Destination → ℕ → (Stats → Stats) → List Destination
update_at [] i f = []
update_at (d ∷ ds) zero f = record d { stats = f d.stats } ∷ ds
update_at (d ∷ ds) (suc i) f = d ∷ update_at ds i f

-- `for _, v := range []*Stats{&st.stats, &d.stats}`.
unfoldable pub both : (Stats → Stats) → ℕ → Queue → Queue
both f i q = record q { stats = f q.stats; destinations = update_at q.destinations i f }

-- The changes that the operations make to one `Stats`.
unfoldable pub count_authorized : Stats → Stats
count_authorized s = record s { authorized = add64 s.authorized 1 }

unfoldable pub count_dropped : Stats → Stats
count_dropped s = record s { dropped = add64 s.dropped 1 }

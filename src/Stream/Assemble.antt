-- ===== src/Stream/Assemble.antt =====
-- stream/stream.go, `Assemble`: the records sorted into buckets, and each bucket reassembled.
-- The map of buckets is an association list in the order of first use; its keys are sorted by a
-- total order before anything reads them. `sort.Slice` and `sort.SliceStable` are an insertion
-- sort, which is stable.
pub mod Usable
pub mod Buckets
use edge_observer.Prelude.{
  ℕ, ◌+◌, Bool, true, false, not, ◌&&◌, ◌||◌, List, [], ◌∷◌, ◌++◌, Option, none, some, ◌==◌, ltb,
  if◌then◌else◌,
}
use edge_observer.Prelude.Int.{ltb_ℤ, eq_ℤ}
use edge_observer.Fragment.Positions.{Direction, sent, received, neither, Fault, same_process}
use edge_observer.Fragment.{Record, StreamKey, stream_key, validate}
use edge_observer.Stream.{Stream, Duplicate, one_with_duplicates}

-- `Discard`.
pub record Discard : Type 0 where
  pub index : ℕ
  pub fault : Fault

-- `Result`.
pub record Assembly : Type 0 where
  pub streams : List Stream
  pub discards : List Discard
  pub duplicates : List Duplicate

pub record Bucket : Type 0 where
  pub key : StreamKey
  pub held : List (ℕ × Record)

-- The map of buckets and the discards, as the first loop builds them.
pub record Collected : Type 0 where
  pub buckets : List Bucket
  pub discards : List Discard

-- The uint8 of a direction.
abbrev pub direction_code : Direction → ℕ
direction_code neither = 0
direction_code sent = 1
direction_code received = 2

-- `==` on keys.
pub same_stream : StreamKey → StreamKey → Bool
same_stream a b =
    same_process a.process b.process
    && a.connection == b.connection
    && direction_code a.direction == direction_code b.direction

-- `buckets[key] = append(buckets[key], …)`.
pub hold_in : StreamKey → ℕ × Record → List Bucket → List Bucket
hold_in key x [] = record { key = key; held = x ∷ [] } ∷ []
hold_in key x (b ∷ bs) =
    if same_stream b.key key
    then record b { held = b.held ++ (x ∷ []) } ∷ bs
    else b ∷ hold_in key x bs

-- One round of the first loop, on the record at position `i` of the input.
pub collect_one : ℕ → Record → Collected → Collected
collect_one i r c = elim (validate r) [
  | some e ↦ record c { discards = c.discards ++ (record { index = i; fault = e } ∷ []) }
  | none ↦ record c { buckets = hold_in (stream_key r) (i, r) c.buckets }
]

-- The first loop.
pub collect : ℕ → List Record → Collected → Collected
collect i [] c = c
collect i (r ∷ rs) c = collect (i + 1) rs (collect_one i r c)

-- `less`, on keys.
pub less : StreamKey → StreamKey → Bool
less a b =
    if not (eq_ℤ a.process.pid b.process.pid)
    then ltb_ℤ a.process.pid b.process.pid
    else if not (a.process.start_time == b.process.start_time)
    then ltb a.process.start_time b.process.start_time
    else if not (a.connection == b.connection)
    then ltb a.connection b.connection
    else ltb (direction_code a.direction) (direction_code b.direction)

-- The order inside of a bucket: offset, then sequence, then input index.
pub earlier : ℕ × Record → ℕ × Record → Bool
earlier (i, r) (j, q) =
    if not (r.offset == q.offset)
    then ltb r.offset q.offset
    else if not (r.sequence == q.sequence)
    then ltb r.sequence q.sequence
    else ltb i j

module _ {ℓ} {A : Type ℓ} where
  pub insert_by : (A → A → Bool) → A → List A → List A
  insert_by before x [] = x ∷ []
  insert_by before x (y ∷ ys) = if before y x then y ∷ insert_by before x ys else x ∷ y ∷ ys

  pub sort_by : (A → A → Bool) → List A → List A
  unfolding insert_by
  sort_by before [] = []
  sort_by before (x ∷ xs) = insert_by before x (sort_by before xs)

abbrev pub key_before : Bucket → Bucket → Bool
key_before a b = less a.key b.key

-- The second loop, over the buckets in the order of their keys.
pub reassemble : List Bucket → Assembly → Assembly
reassemble [] a = a
reassemble (b ∷ bs) a =
    let one = one_with_duplicates b.key (sort_by earlier b.held) in
    reassemble bs
      (record a { streams = a.streams ++ (one.0 ∷ []); duplicates = a.duplicates ++ one.1 })

-- `Assemble`.
pub assemble : List Record → Assembly
assemble records =
    let c = collect 0 records (record { buckets = []; discards = [] }) in
    reassemble (sort_by key_before c.buckets)
      (record { streams = []; discards = c.discards; duplicates = [] })

-- ===== src/Stream/Assemble/Buckets.antt =====
-- What each bucket of `Assemble` holds, and which records are discarded.
use mathlib.Core.List.{append-nil, append_assoc}
use edge_observer.Prelude.{
  ℕ, ◌+◌, ◌≡◌, ◌↔◌, sym, ◌∙◌, true, List, [], ◌∷◌, ◌++◌, none, some, arith, if◌then◌else◌,
  Bool-cases, inl, inr,
}
use edge_observer.Prelude.Int.{eq_ℤ_iff}
use edge_observer.Fragment.{Record, StreamKey, stream_key, validate}
use edge_observer.Stream.Assemble.{
  Bucket, Collected, Discard, collect, collect_one, hold_in, same_stream,
}

pub same_stream_iff : (a b : StreamKey) → (same_stream a b ≡ true) ↔ (a ≡ b)
unfolding same_stream
same_stream_iff a b = (
  λ e. ground (arith, eq_ℤ_iff a.process.pid b.process.pid),
  λ e. ground (arith, eq_ℤ_iff a.process.pid b.process.pid),
)

-- The records held for a key.
abbrev pub held_for : StreamKey → List Bucket → List (ℕ × Record)
held_for k [] = []
held_for k (b ∷ bs) = if same_stream b.key k then b.held else held_for k bs

held_for-same :
    (k : StreamKey) (b : Bucket) (bs : List Bucket) (x : ℕ × Record)
    → (if same_stream b.key k then b.held ++ (x ∷ []) else held_for k bs)
      ≡ held_for k (b ∷ bs) ++ (if same_stream b.key k then x ∷ [] else [])
held_for-same k b bs x = ground (arith, append-nil (held_for k bs))

held_for-hold_in :
    (k j : StreamKey) (x : ℕ × Record) (bs : List Bucket)
    → held_for k (hold_in j x bs) ≡ held_for k bs ++ (if same_stream j k then x ∷ [] else [])
unfolding hold_in
held_for-hold_in k j x [] = ground arith
held_for-hold_in k j x (b ∷ bs) = elim (Bool-cases (same_stream b.key j)) [
  | inl e ↦
      rw e (
        let same : b.key ≡ j = (same_stream_iff b.key j).0 e in
        rw (← same) (held_for-same k b bs x))
  | inr e ↦ rw e (
      ground (
        arith,
        held_for-hold_in k j x bs,
        same_stream_iff b.key j,
        same_stream_iff b.key k,
        same_stream_iff j k,
        append-nil b.held,
      ))
]

-- A record at its position, if it is valid and of the stream.
one_of : StreamKey → ℕ → Record → List (ℕ × Record)
one_of k i r = elim (validate r) [
  | none ↦ if same_stream (stream_key r) k then (i, r) ∷ [] else []
  | some e ↦ []
]

-- The valid records of one stream with their positions, in the order of the input.
pub records_of : StreamKey → ℕ → List Record → List (ℕ × Record)
unfolding one_of
records_of k i [] = []
records_of k i (r ∷ rs) = one_of k i r ++ records_of k (i + 1) rs

refusal_of : ℕ → Record → List Discard
refusal_of i r = elim (validate r) [ none ↦ [] | some e ↦ record { index = i; fault = e } ∷ [] ]

-- The records that are not valid, each with its position and why.
pub refused_of : ℕ → List Record → List Discard
unfolding refusal_of
refused_of i [] = []
refused_of i (r ∷ rs) = refusal_of i r ++ refused_of (i + 1) rs

collect_one-one_of :
    (k : StreamKey) (i : ℕ) (r : Record) (c : Collected)
    → (held_for k (collect_one i r c).buckets ≡ held_for k c.buckets ++ one_of k i r)
      × ((collect_one i r c).discards ≡ c.discards ++ refusal_of i r)
unfolding collect_one one_of refusal_of
collect_one-one_of k i r c = ground (
  arith,
  held_for-hold_in k (stream_key r) (i, r) c.buckets,
  append-nil (held_for k c.buckets),
  append-nil c.discards,
)

-- From any buckets and discards, the loop of `Assemble` appends to the bucket of each key exactly
-- the valid records of that stream, with their positions and in the order of the input, and to the
-- discards exactly the records that are not valid, each with its position and its fault.
pub collect-records_of :
    (k : StreamKey) (i : ℕ) (rs : List Record) (c : Collected)
    → (held_for k (collect i rs c).buckets ≡ held_for k c.buckets ++ records_of k i rs)
      × ((collect i rs c).discards ≡ c.discards ++ refused_of i rs)
unfolding collect records_of refused_of
collect-records_of k i [] c = (sym (append-nil _), sym (append-nil _))
collect-records_of k i (r ∷ rs) c =
    let one = collect_one-one_of k i r c in
    let rest = collect-records_of k (i + 1) rs (collect_one i r c) in
    (
      rest.0
          ∙ rw one.0 (append_assoc (held_for k c.buckets) (one_of k i r) (records_of k (i + 1) rs)),
      rest.1 ∙ rw one.1 (append_assoc c.discards (refusal_of i r) (refused_of (i + 1) rs)),
    )

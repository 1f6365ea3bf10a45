-- ===== src/Stream/Assemble/Usable.antt =====
-- Every stream that `Assemble` returns is usable by a reader that takes it one part at a time.
use edge_observer.Prelude.{
  ℕ, ◌+◌, ◌≤◌, ◌<◌, ◌≡◌, sym, ◌∙◌, map, Bool, true, false, List, [], ◌∷◌, ◌++◌, none, arith,
  u64_mod, Option-cases, Bool-cases, inl, inr,
}
use mathlib.Core.List.{append-nil, append_assoc}
use edge_observer.Fragment.{Record, StreamKey, stream_key, validate}
use edge_observer.Stream.Cover.{Covers, Fits, AllFit, one_with_duplicates-Covers}
use edge_observer.Stream.Agreement.{AllFrom, AllCompatible, one_with_duplicates-AllCompatible}
use edge_observer.Stream.{Stream, one_with_duplicates, stream_bytes, stream_gaps}
use edge_observer.Stream.Assemble.{
  Bucket, Collected, Assembly, same_stream, collect_one, collect, hold_in, earlier, insert_by,
  sort_by, key_before, reassemble, assemble,
}

abbrev pub All {ℓ κ} : {A : Type ℓ} → (A → Type κ) → List A → Type κ
All P [] = Unit
All P (x ∷ xs) = P x × All P xs

All-append {ℓ κ} :
    {A : Type ℓ} (P : A → Type κ) (xs ys : List A) → All P xs → All P ys → All P (xs ++ ys)
All-append P [] ys hx hy = hy
All-append P (x ∷ xs) ys hx hy = (hx.0, All-append P xs ys hx.1 hy)

module _ {ℓ κ} {A : Type ℓ} (P : A → Type κ) (before : A → A → Bool) where
  insert_by-All : (x : A) (xs : List A) → P x → All P xs → All P (insert_by before x xs)
  unfolding insert_by
  insert_by-All x [] p h = (p, h)
  insert_by-All x (y ∷ ys) p h = elim (Bool-cases (before y x)) [
    | inl e ↦ rw e (h.0, insert_by-All x ys p h.1)
    | inr e ↦ rw e (p, h)
  ]

  sort_by-All : (xs : List A) → All P xs → All P (sort_by before xs)
  unfolding sort_by
  sort_by-All [] h = h
  sort_by-All (x ∷ xs) h = insert_by-All x (sort_by before xs) h.0 (sort_by-All xs h.1)

-- A record that ends within the uint64 offsets.
abbrev pub Ends : Record → Type 0
Ends r = r.offset + r.size < u64_mod

abbrev ItemFits : ℕ × Record → Type 0
ItemFits x = Fits x.1

abbrev BucketFits : Bucket → Type 0
BucketFits b = All ItemFits b.held

validate-Fits : (r : Record) → validate r ≡ none → Ends r → Fits r
unfolding validate
validate-Fits r v e = ground arith

hold_in-BucketFits :
    (k : StreamKey) (x : ℕ × Record) (bs : List Bucket)
    → ItemFits x
    → All BucketFits bs
    → All BucketFits (hold_in k x bs)
unfolding hold_in
hold_in-BucketFits k x [] f h = ((f, tt), tt)
hold_in-BucketFits k x (b ∷ bs) f h = elim (Bool-cases (same_stream b.key k)) [
  | inl e ↦ rw e (All-append ItemFits b.held (x ∷ []) h.0 (f, tt), h.1)
  | inr e ↦ rw e (h.0, hold_in-BucketFits k x bs f h.1)
]

collect_one-BucketFits :
    (i : ℕ) (r : Record) (c : Collected)
    → Ends r
    → All BucketFits c.buckets
    → All BucketFits (collect_one i r c).buckets
unfolding collect_one
collect_one-BucketFits i r c e h = elim (Option-cases (validate r)) [
  | inl v ↦
      rw (v, collect_one)
        (hold_in-BucketFits (stream_key r) (i, r) c.buckets (validate-Fits r v e) h)
  | inr (f, v) ↦ rw (v, collect_one) h
]

collect-BucketFits :
    (i : ℕ) (rs : List Record) (c : Collected)
    → All Ends rs
    → All BucketFits c.buckets
    → All BucketFits (collect i rs c).buckets
unfolding collect
collect-BucketFits i [] c e h = h
collect-BucketFits i (r ∷ rs) c e h =
    collect-BucketFits (i + 1) rs (collect_one i r c) e.1 (collect_one-BucketFits i r c e.0 h)

-- A list of records in the order of their offsets.
abbrev Ascending : List (ℕ × Record) → Type 0
Ascending [] = Unit {0}
Ascending (x ∷ xs) = AllFrom x.1.offset xs × Ascending xs

AllFrom-mono : (a b : ℕ) (xs : List (ℕ × Record)) → a ≤ b → AllFrom b xs → AllFrom a xs
AllFrom-mono a b [] h f = tt
AllFrom-mono a b (x ∷ xs) h f = (omega arith, AllFrom-mono a b xs h f.1)

insert_by-AllFrom :
    (a : ℕ) (x : ℕ × Record) (xs : List (ℕ × Record))
    → a ≤ x.1.offset
    → AllFrom a xs
    → AllFrom a (insert_by earlier x xs)
unfolding insert_by
insert_by-AllFrom a x [] h f = (h, tt)
insert_by-AllFrom a x (y ∷ ys) h f = elim (Bool-cases (earlier y x)) [
  | inl e ↦ rw e (f.0, insert_by-AllFrom a x ys h f.1)
  | inr e ↦ rw e (h, f)
]

earlier-offset :
    (x y : ℕ × Record)
    → (earlier y x ≡ true → y.1.offset ≤ x.1.offset)
      × (earlier y x ≡ false → x.1.offset ≤ y.1.offset)
unfolding earlier
earlier-offset x y = (λ e. ground arith, λ e. ground arith)

insert_by-Ascending :
    (x : ℕ × Record) (xs : List (ℕ × Record)) → Ascending xs → Ascending (insert_by earlier x xs)
unfolding insert_by
insert_by-Ascending x [] h = (tt, tt)
insert_by-Ascending x (y ∷ ys) h = elim (Bool-cases (earlier y x)) [
  | inl e ↦ rw e (
    insert_by-AllFrom y.1.offset x ys ((earlier-offset x y).0 e) h.0,
    insert_by-Ascending x ys h.1,
  )
  | inr e ↦
      let le = (earlier-offset x y).1 e in
      rw e ((le, AllFrom-mono x.1.offset y.1.offset ys le h.0), h)
]

sort_by-Ascending : (xs : List (ℕ × Record)) → Ascending (sort_by earlier xs)
unfolding sort_by
sort_by-Ascending [] = tt
sort_by-Ascending (x ∷ xs) = insert_by-Ascending x (sort_by earlier xs) (sort_by-Ascending xs)

-- What a reader may rely on of a stream and the records `rs` it was assembled from.
pub record IsUsable (s : Stream) (rs : List (ℕ × Record)) : Type 0 where
  pub covers : Covers s.start s.parts s.end_
  pub within : s.end_ < u64_mod
  pub whole : s.start + stream_bytes s + stream_gaps s ≡ s.end_
  pub compatible : s.conflicts ≡ [] → AllCompatible s.parts rs

All-AllFit : (xs : List (ℕ × Record)) → All ItemFits xs → AllFit xs
All-AllFit [] h = tt
All-AllFit (x ∷ xs) h = (h.0, All-AllFit xs h.1)

one-IsUsable :
    (k : StreamKey) (rs : List (ℕ × Record))
    → AllFit rs
    → Ascending rs
    → IsUsable (one_with_duplicates k rs).0 rs
one-IsUsable k rs f h =
    let c = one_with_duplicates-Covers k rs f in
    record { covers = c.0; within = c.1; whole = c.4; compatible = compatible k rs f h }
  where
    compatible :
        (k : StreamKey) (rs : List (ℕ × Record))
        → AllFit rs
        → Ascending rs
        → (one_with_duplicates k rs).0.conflicts ≡ []
        → AllCompatible (one_with_duplicates k rs).0.parts rs
    compatible k [] f h e = tt
    compatible k ((i, r) ∷ rs) f h e =
        one_with_duplicates-AllCompatible k i r rs f (omega arith, h.0) e

-- The stream of one bucket, from the bucket's records in their order.
abbrev pub ordered : Bucket → List (ℕ × Record)
ordered b = sort_by earlier b.held

abbrev pub stream_of : Bucket → Stream
stream_of b = (one_with_duplicates b.key (ordered b)).0

reassemble-streams :
    (bs : List Bucket) (a : Assembly) → (reassemble bs a).streams ≡ a.streams ++ map stream_of bs
unfolding reassemble
reassemble-streams [] a = sym (append-nil a.streams)
reassemble-streams (b ∷ bs) a =
    reassemble-streams bs _ ∙ append_assoc a.streams (stream_of b ∷ []) (map stream_of bs)

BucketFits-IsUsable :
    (bs : List Bucket) → All BucketFits bs → All (λ b. IsUsable (stream_of b) (ordered b)) bs
BucketFits-IsUsable [] h = tt
BucketFits-IsUsable (b ∷ bs) h = (
  one-IsUsable b.key (ordered b) (All-AllFit (ordered b) (sort_by-All ItemFits earlier b.held h.0))
      (sort_by-Ascending b.held),
  BucketFits-IsUsable bs h.1,
)

-- The buckets of `Assemble` in the order of their keys.
abbrev pub sorted_buckets : List Record → List Bucket
sorted_buckets records =
    sort_by key_before (collect 0 records (record { buckets = []; discards = [] })).buckets

-- For any records that end within the uint64 offsets, valid or not and in any order: the streams
-- returned are those of the buckets, one each and in their order, and of each stream the parts cover
-- its extent with no overlap and no space, each part passes its check, the extent does not wrap, it
-- is the bytes and the gaps counted, and where the stream has no conflict each byte that a record of
-- its bucket kept is the one that it carries, or lies in a hole.
pub assemble-IsUsable :
    (records : List Record)
    → All Ends records
    → ((assemble records).streams ≡ map stream_of (sorted_buckets records))
      × All (λ b. IsUsable (stream_of b) (ordered b)) (sorted_buckets records)
unfolding assemble
assemble-IsUsable records e =
    let empty : Collected = record { buckets = []; discards = [] } in
    let fit = collect-BucketFits 0 records empty e tt in
    (
      reassemble-streams (sorted_buckets records) _,
      BucketFits-IsUsable (sorted_buckets records) (sort_by-All BucketFits key_before _ fit),
    )

-- ===== src/Stream/Agreement.antt =====
-- What a stream with no conflict says: no record's byte differs from the one that it carries.
use edge_observer.Prelude.{
  ℕ, ◌+◌, ◌-◌, ◌≤◌, ◌<◌, ◌≡◌, refl, sym, ◌∙◌, ap, Bool, true, false, ◌⊎◌, inr, List, [], ◌∷◌, ◌++◌,
  none, some, arith, min, if◌then◌else◌, add64, sub64, add64-eq, sub64-eq, u64_mod, length,
  length-drop, length-take, drop, take, get_elem?, get_elem?-drop, get_elem?-take, get_elem?-lt,
}
use mathlib.Core.List.{concat-ne-nil}
use edge_observer.Fragment.{Record, StreamKey}
use edge_observer.Stream.Parts.{Part, equal_bytes, agrees_at}
use edge_observer.Stream.{
  Conflict, Placing, kept_of, overlap, agrees, noted, place_missing, place_bytes, place_truncated,
  place, place_all, placing_from, one_with_duplicates,
}
use edge_observer.Stream.Cover.{Covers, Fits, AllFit, Placed, place-Placed}
use edge_observer.Stream.Carried.{
  byte_at, record_byte, byte_at-place, byte_at-place_all, place-next, Covers-le,
}

-- The parts carry `c` at `o`, or carry nothing there.
abbrev pub Compatible : List Part → ℕ → ℕ → Type 0
Compatible ps o c = (byte_at ps o ≡ some c) ⊎ (byte_at ps o ≡ none)

equal_bytes-eq : (xs ys : List ℕ) → equal_bytes xs ys ≡ true → xs ≡ ys
unfolding equal_bytes
equal_bytes-eq [] [] h = refl
equal_bytes-eq (x ∷ xs) (y ∷ ys) h = ground (arith, equal_bytes-eq xs ys)
equal_bytes-eq [] (y ∷ ys) h = cc
equal_bytes-eq (x ∷ xs) [] h = cc

-- The bytes of one part against those wanted from inside of it.
equal_bytes-get_elem? :
    (n within : ℕ) (bytes want : List ℕ) (i : ℕ)
    → equal_bytes (take n (drop within bytes)) (take n want) ≡ true
    → i < n
    → get_elem? bytes (within + i) ≡ get_elem? want i
equal_bytes-get_elem? n within bytes want i h lt =
    sym (get_elem?-drop within bytes i)
    ∙ sym (get_elem?-take n (drop within bytes) i lt)
    ∙ ap (λ xs. get_elem? xs i) (equal_bytes-eq _ _ h)
    ∙ get_elem?-take n want i lt

agrees_at-Compatible :
    (a b : ℕ) (ps : List Part) (offset : ℕ) (want : List ℕ) (i c : ℕ)
    → Covers a ps b
    → b < u64_mod
    → a ≤ offset
    → offset + length want ≤ b
    → agrees_at ps offset want ≡ true
    → get_elem? want i ≡ some c
    → Compatible ps (offset + i) c
unfolding agrees_at
agrees_at-Compatible a b [] offset want i c cov lt from to h e = inr refl
agrees_at-Compatible a b (p ∷ ps) offset want i c cov lt from to h e =
    let within = sub64 offset p.offset in
    let n = min (length want) (sub64 p.size within) in
    ground (
      arith,
      cov,
      Covers-le (a + p.size) b ps cov.2,
      get_elem?-lt want i e,
      add64-eq p.offset p.size,
      sub64-eq offset p.offset,
      sub64-eq p.size within,
      add64-eq offset n,
      agrees_at-Compatible (a + p.size) b ps offset want i c cov.2 lt,
      agrees_at-Compatible (a + p.size) b ps (add64 offset n) (drop n want) (i - n) c cov.2 lt,
      length-drop n want,
      get_elem?-drop n want (i - n),
      equal_bytes-get_elem? n within p.bytes want i,
    )

conflicts-place :
    (i : ℕ) (r : Record) (s : Placing) → (place s (i, r)).conflicts ≡ (noted s r).conflicts
unfolding place place_missing place_bytes place_truncated
conflicts-place i r s = ground arith

-- A conflict stays, so a stream without any had none before, and the record agreed.
conflicts-noted :
    (r : Record) (s : Placing)
    → (noted s r).conflicts ≡ []
    → (s.conflicts ≡ []) × (agrees s r ≡ true)
unfolding noted
conflicts-noted r s h = split (agrees s r) s.conflicts refl h
  where
    split :
        (t : Bool) (cs : List Conflict)
        → agrees s r ≡ t
        → (if t then s else record s {
          conflicts = s.conflicts ++ (record { offset = r.offset; size = overlap s.next r } ∷ []);
        }).conflicts
          ≡ []
        → (s.conflicts ≡ []) × (agrees s r ≡ true)
    split true cs e q = (q, e)
    split false cs e q = absurd (concat-ne-nil _ _ q)

conflicts-place_all :
    (rs : List (ℕ × Record)) (s : Placing) → (place_all s rs).conflicts ≡ [] → s.conflicts ≡ []
unfolding place_all
conflicts-place_all [] s h = h
conflicts-place_all ((i, r) ∷ rs) s h =
    let later = conflicts-place_all rs (place s (i, r)) h in
    (conflicts-noted r s (sym (conflicts-place i r s) ∙ later)).0

agrees-Compatible :
    (a o c : ℕ) (r : Record) (s : Placing)
    → Placed a s
    → Fits r
    → a ≤ r.offset
    → agrees s r ≡ true
    → record_byte r o ≡ some c
    → o < s.next
    → Compatible s.parts o c
unfolding agrees overlap
agrees-Compatible a o c r s v f from h e lt =
    let i = o - r.offset in
    let within : i < length r.payload = ground (arith, get_elem?-lt r.payload i {x = c}) in
    let n = min s.next (r.offset + kept_of r) - r.offset in
    ground (
      arith,
      v.within,
      f.ends,
      f.kept,
      within,
      add64-eq r.offset (kept_of r),
      sub64-eq (min s.next (r.offset + kept_of r)) r.offset,
      length-take n r.payload,
      get_elem?-take n r.payload i,
      agrees_at-Compatible a s.next s.parts r.offset (take n r.payload) i c v.covers v.within from,
    )

abbrev pub AllFrom : ℕ → List (ℕ × Record) → Type 0
AllFrom a [] = Unit {0}
AllFrom a (x ∷ rs) = (a ≤ x.1.offset) × AllFrom a rs

-- Every byte of every record is compatible with the parts.
abbrev pub AllCompatible : List Part → List (ℕ × Record) → Type 0
AllCompatible ps [] = Unit {0}
AllCompatible ps (x ∷ rs) =
    ((o c : ℕ) → record_byte x.1 o ≡ some c → Compatible ps o c) × AllCompatible ps rs

place_all-AllCompatible :
    (a : ℕ) (rs : List (ℕ × Record)) (s : Placing)
    → Placed a s
    → AllFit rs
    → AllFrom a rs
    → (place_all s rs).conflicts ≡ []
    → AllCompatible (place_all s rs).parts rs
unfolding place_all
place_all-AllCompatible a [] s v f w h = tt
place_all-AllCompatible a ((i, r) ∷ rs) s v f w h =
    let later = conflicts-place_all rs (place s (i, r)) h in
    let agreed = (conflicts-noted r s (sym (conflicts-place i r s) ∙ later)).1 in
    let v' = place-Placed a i r s v f.0 in
    (
      (λ o c e. ground (
        arith,
        f.0.ends,
        f.0.kept,
        agrees-Compatible a o c r s v f.0 w.0 agreed e,
        get_elem?-lt r.payload (o - r.offset) {x = c},
        byte_at-place a i o r s v f.0,
        byte_at-place_all a o rs (place s (i, r)) v' f.1,
        place-next i r s f.0 v.within,
      )),
      place_all-AllCompatible a rs (place s (i, r)) v' f.1 w.1 h,
    )

-- For records that keep no more than they transferred, end within the uint64 offsets and begin no
-- earlier than the first of them: where the assembled stream has no conflict, every byte that any
-- record kept is the byte that the stream carries at its offset, or lies in a hole of the stream.
pub one_with_duplicates-AllCompatible :
    (k : StreamKey) (i : ℕ) (r : Record) (rs : List (ℕ × Record))
    → AllFit ((i, r) ∷ rs)
    → AllFrom r.offset ((i, r) ∷ rs)
    → (one_with_duplicates k ((i, r) ∷ rs)).0.conflicts ≡ []
    → AllCompatible (one_with_duplicates k ((i, r) ∷ rs)).0.parts ((i, r) ∷ rs)
unfolding one_with_duplicates
one_with_duplicates-AllCompatible k i r rs f w h =
    let start : Placed r.offset (placing_from r.offset) = ground (arith, f.0.ends) in
    place_all-AllCompatible r.offset ((i, r) ∷ rs) (placing_from r.offset) start f w h

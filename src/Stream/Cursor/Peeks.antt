-- ===== src/Stream/Cursor/Peeks.antt =====
-- What `Peek` of stream/cursor.go shows, against the bytes that the stream carries.
use edge_observer.Prelude.{
  ◌%◌, ℕ, zero, suc, ◌+◌, ◌-◌, ◌≤◌, ◌<◌, ◌≡◌, ◌≢◌, refl, sym, ap, ◌∙◌, true, false, not, List, [],
  ◌∷◌, ◌++◌, Option, none, some, ◌==◌, leb, if◌then◌else◌, add64, sub64, add64-eq, sub64-eq,
  u64_mod, take, drop, length, length-take, length-drop, length-append, arith, Bool-cases, inl, inr,
}
use mathlib.Core.List.{append-nil, append_assoc}
use edge_observer.Stream.Parts.{Part, gap_none, validate}
use edge_observer.Stream.Cover.{Covers}
use edge_observer.Stream.Carried.{byte_at, byte_at-above, Covers-le}
use edge_observer.Stream.Cursor.Standing.{Stands, Found, part-some, moved-Stands, round_size-bounds}
use edge_observer.Stream.Cursor.Bytes.{drop-get_elem?}
use edge_observer.Stream.Cursor.Present.{byte_at-bytes_from}
use edge_observer.Stream.Cursor.{Cursor, find_from, part, round_size, peek_loop, peek}

-- The bytes carried from `pos` on, up to the first offset without one, and no more than `n`.
abbrev pub unbroken : List Part → ℕ → ℕ → List ℕ
unbroken ps pos zero = []
unbroken ps pos (suc n) = elim (byte_at ps pos) [ none ↦ [] | some b ↦ b ∷ unbroken ps (pos + 1) n ]

unbroken-some :
    (ps : List Part) (pos n x : ℕ)
    → byte_at ps pos ≡ some x
    → unbroken ps pos (suc n) ≡ x ∷ unbroken ps (pos + 1) n
unbroken-some ps pos n x e = ground (arith, e)

pub unbroken-none : (ps : List Part) (pos n : ℕ) → byte_at ps pos ≡ none → unbroken ps pos n ≡ []
unbroken-none ps pos zero e = refl
unbroken-none ps pos (suc n) e = ground (arith, e)

-- The first `t` of the offsets, all inside of one part that has bytes.
pub unbroken-bytes :
    (p : Part) (ps : List Part) (t m pos : ℕ)
    → validate p ≡ none
    → p.gap ≡ gap_none
    → p.offset ≤ pos
    → pos + t ≤ p.offset + p.size
    → unbroken (p ∷ ps) pos (t + m)
      ≡ take t (drop (pos - p.offset) p.bytes) ++ unbroken (p ∷ ps) (pos + t) m
unfolding validate
unbroken-bytes p ps zero m pos v g from to = ground arith
unbroken-bytes p ps (suc t) m pos v g from to =
    let (x, e, d) = drop-get_elem? p.bytes (pos - p.offset) (ground arith) in
    let later = unbroken-bytes p ps t m (pos + 1) v g (omega arith) (omega arith) in
    let first = unbroken-some (p ∷ ps) pos (t + m) x (ground (arith, e)) in
    let next : (pos + 1) - p.offset ≡ suc (pos - p.offset) = omega arith in
    let past : pos + suc t ≡ pos + 1 + t = omega arith in
    let more : suc t + m ≡ suc (t + m) = omega arith in
    rw (more, d, past) (first ∙ ap (λ (l : List ℕ). x ∷ l) (rw next at later))

unbroken-same :
    (ps qs : List Part) (pos n : ℕ)
    → ((o : ℕ) → pos ≤ o → byte_at ps o ≡ byte_at qs o)
    → unbroken ps pos n ≡ unbroken qs pos n
unbroken-same ps qs pos zero same = refl
unbroken-same ps qs pos (suc n) same =
    let later = unbroken-same ps qs (pos + 1) n (λ o h. same o (omega (arith, h))) in
    ground (arith, same pos (omega arith), later)

pub Found-unbroken :
    (c : Cursor) (f : Found c) (pos n : ℕ)
    → c.pos ≤ pos
    → unbroken (f.here ∷ f.rest) pos n ≡ unbroken c.stream.parts pos n
Found-unbroken c f pos n on = unbroken-same (f.here ∷ f.rest) c.stream.parts pos n (λ o h.
    byte_at-bytes_from (f.here ∷ f.rest) c.stream.parts o (f.carries o 1 (omega (arith, h))))

find_from-none :
    (rest : List Part) (idx a b pos : ℕ)
    → Covers a rest b
    → b ≤ pos
    → b < u64_mod
    → (find_from pos idx rest).1 ≡ none
unfolding find_from add64
find_from-none [] idx a b pos c to small = refl
find_from-none (p ∷ ps) idx a b pos c to small =
    let within = Covers-le _ _ ps c.2 in
    let fits : (p.offset + p.size) % u64_mod ≡ p.offset + p.size = omega (arith, c.0) in
    ground (arith, fits, within, c.0, find_from-none ps (idx + 1) (a + p.size) b pos c.2 to small)

-- Behind the last offset there is no part, and no byte.
part-none : (c : Cursor) → Stands c → c.stream.end_ ≤ c.pos → (part c).1 ≡ none
unfolding part
part-none c v past =
    find_from-none (drop c.idx c.stream.parts) c.idx v.first c.stream.end_ c.pos v.covers past
      v.small

pub past-unbroken :
    (c : Cursor) (n : ℕ) → Stands c → c.stream.end_ ≤ c.pos → unbroken c.stream.parts c.pos n ≡ []
past-unbroken c n v past = unbroken-none c.stream.parts c.pos n (
    sym (
      byte_at-bytes_from (drop c.idx c.stream.parts) c.stream.parts c.pos
        (v.carries c.pos 1 (omega arith)))
    ∙ byte_at-above v.first c.stream.end_ c.pos (drop c.idx c.stream.parts) v.covers past)

peek_loop-full :
    (fuel n : ℕ) (c : Cursor) (out : List ℕ) → n ≤ length out → peek_loop fuel n c out ≡ out
unfolding peek_loop
peek_loop-full zero n c out h = refl
peek_loop-full (suc fuel) n c out h = let e : leb n (length out) ≡ true = ground arith in rw e refl

peek_loop-end :
    (fuel n : ℕ) (c : Cursor) (out : List ℕ) → (part c).1 ≡ none → peek_loop fuel n c out ≡ out
unfolding peek_loop part
peek_loop-end zero n c out e = refl
peek_loop-end (suc fuel) n c out e = ground (arith, e)

-- One round of the loop, on the part found.
peek_loop-suc :
    (fuel n : ℕ) (c : Cursor) (f : Found c) (out : List ℕ)
    → length out < n
    → let t = round_size (n - length out) c.pos f.here in
      peek_loop (suc fuel) n c out ≡ (
        if not (f.here.gap == gap_none)
        then out
        else peek_loop fuel n
            (record c { idx = f.idx; pos = add64 c.pos t })
            (out ++ take t (drop (sub64 c.pos f.here.offset) f.here.bytes)))
unfolding peek_loop
peek_loop-suc fuel n c f out room =
    let more : leb n (length out) ≡ false = ground arith in
    let round : Cursor × Option Part → List ℕ = λ r. elim r.1 as (λ _. List ℕ) [
      | none ↦ out
      | some p ↦
          let t = round_size (n - length out) c.pos p in
          if not (p.gap == gap_none)
          then out
          else peek_loop fuel n (record (r.0) { pos = add64 c.pos t })
              (out ++ take t (drop (sub64 c.pos p.offset) p.bytes))
    ] in
    rw more (ap round f.found)

pub full_size : (p : Part) → validate p ≡ none → p.gap ≡ gap_none → length p.bytes ≡ p.size
unfolding validate
full_size p v g = ground arith

length_round :
    (c : Cursor) (f : Found c) (t w : ℕ)
    → c.pos + t ≤ f.here.offset + f.here.size
    → f.here.gap ≡ gap_none
    → w ≡ c.pos - f.here.offset
    → length (take t (drop w f.here.bytes)) ≡ t
length_round c f t w inside g same = omega (
  arith,
  length-take t (drop w f.here.bytes),
  length-drop w f.here.bytes,
  full_size f.here f.covers.1 g,
  f.low,
  same,
)

-- One round of `t` offsets of a part with bytes.
round-unbroken :
    (c : Cursor) (f : Found c) (t n w : ℕ) (out : List ℕ) (r : List ℕ)
    → t ≤ n - length out
    → c.pos + t ≤ f.here.offset + f.here.size
    → f.here.gap ≡ gap_none
    → w ≡ c.pos - f.here.offset
    → let longer = out ++ take t (drop w f.here.bytes) in
      r ≡ longer ++ unbroken c.stream.parts (c.pos + t) (n - length longer)
      → r ≡ out ++ unbroken c.stream.parts c.pos (n - length out)
round-unbroken c f t n w out r part_of inside g same h =
    let xs = take t (drop w f.here.bytes) in
    let m = n - length out - t in
    let all_read = length_round c f t w inside g same in
    let left : n - length (out ++ xs) ≡ m = omega (arith, length-append out xs, all_read) in
    let all : t + m ≡ n - length out = omega arith in
    let split : unbroken c.stream.parts c.pos (n - length out)
        ≡ xs ++ unbroken c.stream.parts (c.pos + t) m =
      sym (Found-unbroken c f c.pos (n - length out) (omega arith))
      ∙ ap (unbroken (f.here ∷ f.rest) c.pos) (sym all)
      ∙ unbroken-bytes f.here f.rest t m c.pos f.covers.1 g f.low inside
      ∙ ap (λ (k : ℕ). take t (drop k f.here.bytes) ++ unbroken (f.here ∷ f.rest) (c.pos + t) m)
          (sym same)
      ∙ ap (λ (l : List ℕ). xs ++ l) (Found-unbroken c f (c.pos + t) m (omega arith)) in
    h
    ∙ ap (λ (k : ℕ). (out ++ xs) ++ unbroken c.stream.parts (c.pos + t) k) left
    ∙ append_assoc out xs _
    ∙ ap (λ (l : List ℕ). out ++ l) (sym split)

hole-unbroken :
    (c : Cursor) (f : Found c) (n : ℕ) (out : List ℕ)
    → f.here.gap ≢ gap_none
    → out ≡ out ++ unbroken c.stream.parts c.pos n
hole-unbroken c f n out g =
    let lost : unbroken c.stream.parts c.pos n ≡ [] =
      sym (Found-unbroken c f c.pos n (omega arith))
      ∙ unbroken-none (f.here ∷ f.rest) c.pos n (ground (arith, f.high)) in
    sym (append-nil out) ∙ ap (λ (l : List ℕ). out ++ l) (sym lost)

-- What `peek_loop` does once it has a part.
found-unbroken :
    (fuel n : ℕ) (c : Cursor) (f : Found c) (out : List ℕ)
    → Stands c
    → length out < n
    → ((d : Cursor) (xs : List ℕ)
        → Stands d
        → length out < length xs
        → peek_loop fuel n d xs ≡ xs ++ unbroken d.stream.parts d.pos (n - length xs))
    → peek_loop (suc fuel) n c out ≡ out ++ unbroken c.stream.parts c.pos (n - length out)
found-unbroken fuel n c f out v room later =
    let t = round_size (n - length out) c.pos f.here in
    let bounds = round_size-bounds c f (n - length out) v (omega arith) in
    let no_wrap : add64 c.pos t ≡ c.pos + t =
      add64-eq c.pos t (omega (arith, bounds.2, Covers-le _ _ f.rest f.covers.2, v.small)) in
    let inside : sub64 c.pos f.here.offset ≡ c.pos - f.here.offset =
      sub64-eq c.pos f.here.offset f.low (omega (arith, v.within, v.small)) in
    rw (peek_loop-suc fuel n c f out room) (elim (Bool-cases (f.here.gap == gap_none)) [
      | inr hole ↦ rw hole (hole-unbroken c f (n - length out) out (ground arith))
      | inl some_bytes ↦
          rw (some_bytes, no_wrap)
            (let w = sub64 c.pos f.here.offset in
              let g : f.here.gap ≡ gap_none = ground arith in
              let longer = out ++ take t (drop w f.here.bytes) in
              round-unbroken c f t n w out _ bounds.1 bounds.2 g inside (
                later (record c { idx = f.idx; pos = c.pos + t }) longer
                  (moved-Stands c f (c.pos + t) v (omega arith)
                    (omega (arith, bounds.2, Covers-le _ _ f.rest f.covers.2)))
                  (omega (
                    arith,
                    length-append out (take t (drop w f.here.bytes)),
                    length_round c f t w bounds.2 g inside,
                    bounds.0,
                  ))))
    ])

nothing_more :
    (c : Cursor) (n : ℕ) (out : List ℕ)
    → unbroken c.stream.parts c.pos n ≡ []
    → out ≡ out ++ unbroken c.stream.parts c.pos n
nothing_more c n out e = sym (append-nil out) ∙ ap (λ (l : List ℕ). out ++ l) (sym e)

peek_loop-unbroken :
    (fuel n : ℕ) (c : Cursor) (out : List ℕ)
    → Stands c
    → n ≤ length out + fuel
    → peek_loop fuel n c out ≡ out ++ unbroken c.stream.parts c.pos (n - length out)
peek_loop-unbroken zero n c out v enough =
    let none_left : n - length out ≡ 0 = omega arith in
    peek_loop-full zero n c out (omega arith)
    ∙ nothing_more c (n - length out) out (ap (unbroken c.stream.parts c.pos) none_left)
peek_loop-unbroken (suc fuel) n c out v enough = elim (Bool-cases (leb n (length out))) [
  | inl full ↦
      let none_left : n - length out ≡ 0 = ground arith in
      peek_loop-full (suc fuel) n c out (ground arith)
      ∙ nothing_more c (n - length out) out (ap (unbroken c.stream.parts c.pos) none_left)
  | inr room ↦ elim (Bool-cases (leb c.stream.end_ c.pos)) [
    | inl past ↦
        peek_loop-end (suc fuel) n c out (part-none c v (ground arith))
        ∙ nothing_more c (n - length out) out (past-unbroken c (n - length out) v (ground arith))
    | inr within ↦
        found-unbroken fuel n c (part-some c v (ground arith)) out v (ground arith)
          (λ d xs w longer. peek_loop-unbroken fuel n d xs w (ground (arith, longer)))
  ]
]

-- `Peek` of a cursor that stands inside of its stream: the bytes that the stream carries at the next
-- offsets, up to the first that has none and no more than `n`, and the cursor is as it was.
peek-unbroken : (c : Cursor) (n : ℕ) → Stands c → peek n c ≡ (c, unbroken c.stream.parts c.pos n)
unfolding peek
peek-unbroken c n v =
    let all : n - 0 ≡ n = omega arith in
    ap (λ (l : List ℕ). (c, l))
      (peek_loop-unbroken n n c [] v (omega arith) ∙ ap (unbroken c.stream.parts c.pos) all)

-- ===== src/Opening/Stepwise.antt =====
-- What is decided as the bytes arrive is what is decided of all of them at once.
use edge_observer.Prelude.{
  ℕ, zero, suc, ◌+◌, ◌-◌, ◌<◌, ◌≡◌, ◌≢◌, refl, sym, ap, ◌∙◌, Bool, true, false, not, ◌&&◌, ◌||◌,
  List, [], ◌∷◌, ◌==◌, leb, if◌then◌else◌, take, is_none, arith, Bool-cases, inl, inr,
}
use edge_observer.Opening.{
  opening_window, Beginning, http_at, verdict, close, look, is_decided, take_in,
}

-- The bytes read to the end, with nothing decided on the way.
abbrev pub look_all : Beginning → List ℕ → Beginning
look_all b [] = b
look_all b (c ∷ cs) = look_all (look c b) cs

-- A space seen among the first five bytes is no part of "HTTP/".
pub record Agrees (b : Beginning) : Type 0 where
  pub spaced : is_none b.space ≡ false → b.n < 5 → b.prefix_ ≡ false
  pub open_ : b.certain ≡ false

http_at-no_space : (i : ℕ) → http_at i ≢ 32
unfolding http_at
http_at-no_space zero e = absurd (omega (arith, e))
http_at-no_space (suc zero) e = absurd (omega (arith, e))
http_at-no_space (suc (suc zero)) e = absurd (omega (arith, e))
http_at-no_space (suc (suc (suc zero))) e = absurd (omega (arith, e))
http_at-no_space (suc (suc (suc (suc i)))) e = absurd (omega (arith, e))

look-Agrees : (c : ℕ) (b : Beginning) → Agrees b → Agrees (look c b)
unfolding look
look-Agrees c b v = record {
  spaced = λ s l. ground (arith, v.spaced, http_at-no_space b.n);
  open_ = v.open_;
}

-- What closes the window before its last byte.
abbrev is_settled : Beginning → Bool
is_settled b =
    (leb 5 b.n && b.prefix_)
    || not (is_none b.space)
    || (not b.token && (leb 5 b.n || not b.prefix_))

-- Once settled, no further byte changes the verdict.
look-settled :
    (c : ℕ) (b : Beginning)
    → Agrees b
    → is_settled b ≡ true
    → (verdict (look c b) ≡ verdict b) × (is_settled (look c b) ≡ true)
unfolding look verdict
look-settled c b v d = (ground (arith, v.spaced), ground (arith, v.spaced))

look_all-settled :
    (b : Beginning) (cs : List ℕ)
    → Agrees b
    → is_settled b ≡ true
    → verdict (look_all b cs) ≡ verdict b
look_all-settled b [] v d = refl
look_all-settled b (c ∷ cs) v d =
    let one = look-settled c b v d in
    look_all-settled (look c b) cs (look-Agrees c b v) one.1 ∙ one.0

take_in-certain : (b : Beginning) (cs : List ℕ) → b.certain ≡ true → take_in b cs ≡ b
unfolding take_in
take_in-certain b [] e = refl
take_in-certain b (c ∷ cs) e = rw e refl

close-what : (b : Beginning) → b.certain ≡ false → (close b).what ≡ verdict b
unfolding close
close-what b e = rw e refl

close-closed :
    (b : Beginning) (cs : List ℕ)
    → b.certain ≡ false
    → (close (take_in (close b) cs)).what ≡ verdict b
unfolding close
close-closed b cs e =
    ground (arith, take_in-certain (record b { what = verdict b; certain = true }) cs refl)

take-nil {ℓ} : {A : Type ℓ} (n : ℕ) → take {A = A} n [] ≡ []
take-nil zero = refl
take-nil (suc n) = refl

is_decided-lem : (b : Beginning) → is_decided b ≡ is_settled b || b.n == opening_window
unfolding is_decided
is_decided-lem b = ground arith

look-n : (c : ℕ) (b : Beginning) → (look c b).n ≡ b.n + 1
unfolding look
look-n c b = refl

take_in-nil : (b : Beginning) → Agrees b → (close (take_in b [])).what ≡ verdict b
unfolding take_in
take_in-nil b v = close-what b v.open_

if-same {ℓ} : {A : Type ℓ} (t : Bool) (x y : A) → t ≡ false → (if t then x else y) ≡ y
if-same t x y e = rw e refl

take_in-cons :
    (b : Beginning) (c : ℕ) (cs : List ℕ)
    → b.certain ≡ false
    → take_in b (c ∷ cs) ≡ take_in (if is_decided (look c b) then close (look c b) else look c b) cs
unfolding take_in
take_in-cons b c cs e = if-same b.certain b _ e

-- A byte that decides, and one that does not.
take_in-decided :
    (b : Beginning) (c : ℕ) (cs : List ℕ)
    → Agrees b
    → is_decided (look c b) ≡ true
    → (close (take_in b (c ∷ cs))).what ≡ verdict (look c b)
take_in-decided b c cs v d =
    ap (λ x. (close x).what)
      (take_in-cons b c cs v.open_
        ∙ ap (λ t. take_in (if t then close (look c b) else look c b) cs) d)
    ∙ close-closed (look c b) cs (look-Agrees c b v).open_

take_in-undecided :
    (b : Beginning) (c : ℕ) (cs : List ℕ)
    → Agrees b
    → is_decided (look c b) ≡ false
    → take_in b (c ∷ cs) ≡ take_in (look c b) cs
take_in-undecided b c cs v d =
    take_in-cons b c cs v.open_ ∙ ap (λ t. take_in (if t then close (look c b) else look c b) cs) d

-- The verdict on the bytes as they arrive is the verdict on those of the window.
pub take_in-look_all :
    (b : Beginning) (cs : List ℕ)
    → Agrees b
    → b.n < opening_window
    → (close (take_in b cs)).what ≡ verdict (look_all b (take (opening_window - b.n) cs))
take_in-look_all b [] v h = rw (take-nil (opening_window - b.n)) (take_in-nil b v)
take_in-look_all b (c ∷ cs) v h =
    let next = look c b in
    let w = look-Agrees c b v in
    let left = opening_window - next.n in
    let more : suc left ≡ opening_window - b.n = omega (arith, look-n c b) in
    let said = is_decided-lem next in
    let here =
      elim (Bool-cases (is_settled next))
        as (λ _. (close (take_in b (c ∷ cs))).what ≡ verdict (look_all next (take left cs))) [
          | inl settled ↦
              take_in-decided b c cs v (ground (arith, said, settled))
              ∙ sym (look_all-settled next (take left cs) w settled)
          | inr open_ ↦ elim (Bool-cases (next.n == opening_window)) [
            | inl full ↦
                let none_left : 0 ≡ left = ground arith in
                take_in-decided b c cs v (ground (arith, said, full))
                ∙ ap (λ k. verdict (look_all next (take k cs))) none_left
            | inr below ↦
                ap (λ x. (close x).what)
                  (take_in-undecided b c cs v (ground (arith, said, open_, below)))
                ∙ take_in-look_all next cs w (ground (arith, look-n c b))
          ]
        ] in
    here ∙ ap (λ k. verdict (look_all b (take k (c ∷ cs)))) more

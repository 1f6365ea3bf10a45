-- ===== src/Opening/AtOnce.antt =====
-- `beginning` of reconstruct/pairing.go decides what `opening` of reconstruct/reconstruct.go does.
use edge_observer.Prelude.{
  ℕ, suc, ◌+◌, ◌-◌, ◌≤◌, ◌≡◌, refl, sym, ap, ◌∙◌, Bool, true, ◌&&◌, List, [], ◌∷◌, Option, some,
  ◌==◌, ltb, leb, if◌then◌else◌, length, take, is_none, arith, Bool-cases, Option-cases, inl, inr,
}
use edge_observer.Opening.{
  opens_request, opens_response, opens_something_else, is_token_byte, is_method, starts_http,
  index_space, opening, opening_window, Beginning, no_bytes, http_at, is_after_start, verdict,
  close, look, take_in,
}
use edge_observer.Opening.Stepwise.{look_all, take_in-look_all}

-- What the bytes read change in each field.
abbrev matches : ℕ → List ℕ → Bool
matches i [] = true
matches i (c ∷ cs) = (if ltb i 5 then c == http_at i else true) && matches (i + 1) cs

abbrev tokens_before : List ℕ → Bool
tokens_before [] = true
tokens_before (c ∷ cs) = if c == 32 then true else is_token_byte c && tokens_before cs

look_all-n : (b : Beginning) (cs : List ℕ) → (look_all b cs).n ≡ b.n + length cs
unfolding look
look_all-n b [] = omega arith
look_all-n b (c ∷ cs) = omega (arith, look_all-n (look c b) cs)

look_all-prefix_ :
    (b : Beginning) (cs : List ℕ) → (look_all b cs).prefix_ ≡ b.prefix_ && matches b.n cs
unfolding look
look_all-prefix_ b [] = ground arith
look_all-prefix_ b (c ∷ cs) = ground (arith, look_all-prefix_ (look c b) cs)

look_all-space :
    (b : Beginning) (cs : List ℕ)
    → (look_all b cs).space ≡ (if is_none b.space then index_space b.n cs else b.space)
unfolding look index_space
look_all-space b [] = ground arith
look_all-space b (c ∷ cs) = ground (arith, look_all-space (look c b) cs)

look_all-token :
    (b : Beginning) (cs : List ℕ)
    → (look_all b cs).token ≡ b.token && (if is_none b.space then tokens_before cs else true)
unfolding look
look_all-token b [] = ground arith
look_all-token b (c ∷ cs) = ground (arith, look_all-token (look c b) cs)

matches-past : (i : ℕ) (cs : List ℕ) → 5 ≤ i → matches i cs ≡ true
matches-past i [] h = refl
matches-past i (c ∷ cs) h = ground (arith, matches-past (i + 1) cs (omega arith))

starts_http-matches : (head : List ℕ) → starts_http head ≡ leb 5 (length head) && matches 0 head
unfolding starts_http http_at
starts_http-matches [] = refl
starts_http-matches (a ∷ []) = ground arith
starts_http-matches (a ∷ b ∷ []) = ground arith
starts_http-matches (a ∷ b ∷ c ∷ []) = ground arith
starts_http-matches (a ∷ b ∷ c ∷ d ∷ []) = ground arith
starts_http-matches (a ∷ b ∷ c ∷ d ∷ e ∷ cs) = ground (arith, matches-past 5 cs (omega arith))

index_space-method :
    (i k : ℕ) (cs : List ℕ)
    → index_space i cs ≡ some k
    → (i ≤ k) × (is_method (take (k - i) cs) ≡ tokens_before cs)
unfolding index_space is_method
index_space-method i k [] e = cc
index_space-method i k (c ∷ cs) e = elim (Bool-cases (c == 32)) [
  | inl blank ↦
      let here : i ≡ k = ground (arith, e, blank) in
      let none_left : 0 ≡ k - i = omega arith in
      (omega arith, ap (λ n. is_method (take n (c ∷ cs))) (sym none_left) ∙ ground (arith, blank))
  | inr other ↦
      let later = index_space-method (i + 1) k cs (ground (arith, e, other)) in
      let more : suc (k - (i + 1)) ≡ k - i = omega (arith, later.0) in
      (
        omega (arith, later.0),
        ap (λ n. is_method (take n (c ∷ cs))) (sym more) ∙ ground (arith, other, later.1),
      )
]

verdict-fields :
    (b : Beginning) (n : ℕ) (p : Bool) (s : Option ℕ) (t : Bool)
    → b.n ≡ n
    → b.prefix_ ≡ p
    → b.space ≡ s
    → b.token ≡ t
    → verdict b ≡ (
        if leb 5 n && p
        then opens_response
        else if is_after_start s && t
        then opens_request
        else opens_something_else)
unfolding verdict
verdict-fields b n p s t en ep es et = ground (arith, en, ep, es, et)

look_all-opening : (head : List ℕ) → verdict (look_all no_bytes head) ≡ opening head
unfolding opening
look_all-opening head =
    let fields =
      verdict-fields (look_all no_bytes head) (length head) (matches 0 head) (index_space 0 head)
        (tokens_before head) (look_all-n no_bytes head ∙ omega arith)
        (look_all-prefix_ no_bytes head) (look_all-space no_bytes head)
        (look_all-token no_bytes head) in
    let prefix = starts_http-matches head in
    elim (Option-cases (index_space 0 head)) [
      | inl e ↦ ground (arith, fields, prefix, e)
      | inr (k, e) ↦
          let method = index_space-method 0 k head e in
          let all : k - 0 ≡ k = omega arith in
          let same : is_method (take k head) ≡ tokens_before head =
            ap (λ n. is_method (take n head)) (sym all) ∙ method.1 in
          ground (arith, fields, prefix, e, same)
    ]

-- A direction read as its bytes arrive, and closed when no more come, begins with what `opening`
-- says of its first 32 bytes, or of all where it has fewer: no early decision is changed by a later
-- byte, and none is made that the whole window would not give.
pub take_in-opening :
    (bytes : List ℕ) → (close (take_in no_bytes bytes)).what ≡ opening (take opening_window bytes)
take_in-opening bytes =
    take_in-look_all no_bytes bytes (record { spaced = λ s l. s; open_ = refl }) (omega arith)
    ∙ look_all-opening (take opening_window bytes)

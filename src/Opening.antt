-- ===== src/Opening.antt =====
-- What a direction of a connection begins with: `opening` of reconstruct/reconstruct.go, which reads
-- the first 32 bytes at once, and `beginning` of reconstruct/pairing.go, which reads them as they
-- arrive. The bytes that `Peek` returns are an argument; `take` reports how many bytes it looked at,
-- which is what `n` grows by.
pub mod Stepwise
pub mod AtOnce
mod Tests
use edge_observer.Prelude.{
  ℕ, zero, suc, ◌+◌, Bool, true, false, not, ◌&&◌, ◌||◌, List, [], ◌∷◌, Option, none, some, ◌==◌,
  ltb, leb, if◌then◌else◌, length, take, is_none,
}

-- `opener`, of a direction that has bytes or a hole.
pub data Opener : Type 0 where
  opens_request opens_response opens_something_else : Opener

-- The bytes of "!#$%&'*+-.^_`|~".
abbrev token_marks : List ℕ
token_marks = 33 ∷ 35 ∷ 36 ∷ 37 ∷ 38 ∷ 39 ∷ 42 ∷ 43 ∷ 45 ∷ 46 ∷ 94 ∷ 95 ∷ 96 ∷ 124 ∷ 126 ∷ []

pub has_byte : List ℕ → ℕ → Bool
has_byte [] c = false
has_byte (x ∷ xs) c = x == c || has_byte xs c

-- `isTokenByte`.
pub is_token_byte : ℕ → Bool
unfolding has_byte
is_token_byte c =
    (leb 97 c && leb c 122)
    || (leb 65 c && leb c 90)
    || (leb 48 c && leb c 57)
    || has_byte token_marks c

-- `isMethod`.
pub is_method : List ℕ → Bool
unfolding is_token_byte
is_method [] = true
is_method (c ∷ cs) = is_token_byte c && is_method cs

-- `string(head[:5]) == "HTTP/"`, of a head that has five bytes.
pub starts_http : List ℕ → Bool
starts_http (a ∷ b ∷ c ∷ d ∷ e ∷ cs) = a == 72 && b == 84 && c == 84 && d == 80 && e == 47
starts_http _ = false

-- `strings.IndexByte(string(head), ' ')`, counted from `i`.
pub index_space : ℕ → List ℕ → Option ℕ
index_space i [] = none
index_space i (c ∷ cs) = if c == 32 then some i else index_space (i + 1) cs

-- `opening`, on the bytes that `Peek` returns.
pub opening : List ℕ → Opener
unfolding starts_http is_method index_space
opening head = if starts_http head then opens_response else elim (index_space 0 head) [
  | none ↦ opens_something_else
  | some space ↦
      if ltb 0 space && is_method (take space head) then opens_request else opens_something_else
]

-- `openingWindow`.
abbrev pub opening_window : ℕ
opening_window = 32

-- `beginning`. The place of the first space is -1 before one, here `none`.
pub record Beginning : Type 0 where
  pub n : ℕ
  pub prefix_ : Bool
  pub space : Option ℕ
  pub token : Bool
  pub what : Opener
  pub certain : Bool

-- The beginning of a direction that starts.
abbrev pub no_bytes : Beginning
no_bytes = record {
  n = 0;
  prefix_ = true;
  space = none;
  token = true;
  what = opens_something_else;
  certain = false;
}

-- `"HTTP/"[i]`, for `i` below five.
pub http_at : ℕ → ℕ
http_at zero = 72
http_at (suc zero) = 84
http_at (suc (suc zero)) = 84
http_at (suc (suc (suc zero))) = 80
http_at (suc (suc (suc (suc i)))) = 47

abbrev is_after_start : Option ℕ → Bool
is_after_start none = false
is_after_start (some i) = ltb 0 i

-- The switch of `close`.
pub verdict : Beginning → Opener
verdict b =
    if leb 5 b.n && b.prefix_
    then opens_response
    else if is_after_start b.space && b.token
    then opens_request
    else opens_something_else

-- `close`.
pub close : Beginning → Beginning
unfolding verdict
close b = if b.certain then b else record b { what = verdict b; certain = true }

-- What one byte changes in `take`.
pub look : ℕ → Beginning → Beginning
look c b = record b {
  n = b.n + 1;
  prefix_ = if ltb b.n 5 then b.prefix_ && c == http_at b.n else b.prefix_;
  space = if is_none b.space && c == 32 then some b.n else b.space;
  token = if is_none b.space && not (c == 32) && not (is_token_byte c) then false else b.token;
}

-- The switch of `take`.
pub is_decided : Beginning → Bool
is_decided b =
    (leb 5 b.n && b.prefix_)
    || not (is_none b.space)
    || (not b.token && (leb 5 b.n || not b.prefix_))
    || b.n == opening_window

-- `take`.
pub take_in : Beginning → List ℕ → Beginning
unfolding look is_decided close
take_in b [] = b
take_in b (c ∷ cs) =
    let next = look c b in
    let rest = take_in (if is_decided next then close next else next) cs in
    if b.certain then b else rest

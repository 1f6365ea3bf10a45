-- ===== src/ContentCoding.antt =====
-- contentcoding/coding.go: a message's content coding, read from its Content-Encoding fields. The loop
-- over a value runs on fuel, its length: each round takes a byte of it at least.
pub mod Listed
mod Tests
use edge_observer.Prelude.{
  ℕ, zero, suc, ◌+◌, Bool, true, false, not, ◌&&◌, ◌||◌, List, [], ◌∷◌, Option, none, some, ltb,
  ◌==◌, if◌then◌else◌, length, take, drop,
}
use edge_observer.Prelude.Bytes.{codes, equal_fold, all_bytes, is_tchar, index_byte, trim}

-- `Coding`.
pub data Coding : Type 0 where
  gzip deflate brotli zstd : Coding

-- `Verdict`.
pub data Verdict : Type 0 where
  supported unsupported malformed : Verdict

-- What a token names.
pub data Named : Type 0 where
  identity unknown : Named
  undone : Coding → Named

-- `named`.
unfoldable pub named : List ℕ → Named
unfolding equal_fold
named token =
    if equal_fold token (codes "identity")
    then identity
    else if equal_fold token (codes "gzip")
    then undone gzip
    else if equal_fold token (codes "x-gzip")
    then undone gzip
    else if equal_fold token (codes "deflate")
    then undone deflate
    else if equal_fold token (codes "br")
    then undone brotli
    else if equal_fold token (codes "zstd")
    then undone zstd
    else unknown

-- `isToken`.
unfoldable pub is_token : List ℕ → Bool
unfolding all_bytes
is_token [] = false
is_token (c ∷ cs) = all_bytes is_tchar (c ∷ cs)

-- `MaxCodings`.
abbrev pub max_codings : ℕ
max_codings = 1

-- The variables of `ParseList`; the list has one place.
pub record Found : Type 0 where
  pub coding : Option Coding
  pub count : ℕ
  pub some_unknown : Bool

abbrev pub nothing_found : Found
nothing_found = record { coding = none; count = 0; some_unknown = false }

abbrev pub count_named : Named → Found → Found
count_named identity f = f
count_named unknown f = record f { count = f.count + 1; some_unknown = true }
count_named (undone c) f = record f {
  coding = if ltb f.count max_codings then some c else f.coding;
  count = f.count + 1;
}

-- One token; none where the list is malformed.
abbrev pub read_token : List ℕ → Found → Option Found
read_token [] f = some f
read_token (c ∷ cs) f =
    if not (is_token (c ∷ cs)) then none else some (count_named (named (c ∷ cs)) f)

abbrev pub before : List ℕ → Option ℕ → List ℕ
before value none = value
before value (some i) = take i value

abbrev pub after : List ℕ → Option ℕ → List ℕ
after value none = []
after value (some i) = drop (suc i) value

-- A malformed list is returned at once.
abbrev pub and_then : Option Found → (Found → Option Found) → Option Found
and_then none k = none
and_then (some g) k = k g

-- The loop over one value.
unfoldable pub read_value : ℕ → List ℕ → Found → Option Found
unfolding index_byte trim
read_value fuel [] f = some f
read_value zero (c ∷ cs) f = none
read_value (suc fuel) (c ∷ cs) f =
    let comma = index_byte (c ∷ cs) 44 in
    and_then (read_token (trim (before (c ∷ cs) comma)) f) (read_value fuel (after (c ∷ cs) comma))

-- The loop over the values.
unfoldable pub read_values : List (List ℕ) → Found → Option Found
unfolding read_value
read_values [] f = some f
read_values (v ∷ vs) f = and_then (read_value (length v) v f) (read_values vs)

abbrev pub decide : Option Found → Option Coding × Verdict
decide none = (none, malformed)
decide (some f) =
    if f.some_unknown || ltb max_codings f.count
    then (none, unsupported)
    else (if f.count == 0 then none else f.coding, supported)

-- `ParseList`.
unfoldable pub parse_list : List (List ℕ) → Option Coding × Verdict
unfolding read_values
parse_list values = decide (read_values values nothing_found)

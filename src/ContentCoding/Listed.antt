-- ===== src/ContentCoding/Listed.antt =====
-- contentcoding/coding.go, `ParseList`: its verdict as one of the whole list of tokens.
use mathlib.Core.List.{append-nil, append_assoc}
use edge_observer.Prelude.{
  ℕ, zero, suc, ◌+◌, ◌≤◌, ◌≡◌, refl, sym, ap, ◌∙◌, ◌≢◌, Bool, true, false, not, ◌&&◌, List, [], ◌∷◌,
  ◌++◌, Option, none, some, arith, if◌then◌else◌, length, take, drop, length-drop,
}
use edge_observer.Prelude.Bytes.{index_byte, split_at, push_byte, trim}
use edge_observer.ContentCoding.{
  Coding, Verdict, supported, unsupported, malformed, Named, identity, unknown, undone, named,
  is_token, Found, nothing_found, count_named, and_then, read_token, before, after, read_value,
  read_values, decide, parse_list,
}

-- The elements of the values that are not empty, without the blanks around them.
abbrev pub or_skip : List ℕ → List (List ℕ) → List (List ℕ)
or_skip [] ts = ts
or_skip (c ∷ cs) ts = (c ∷ cs) ∷ ts

unfoldable pub tokens_of : List (List ℕ) → List (List ℕ)
unfolding trim
tokens_of [] = []
tokens_of (e ∷ es) = or_skip (trim e) (tokens_of es)

unfoldable pub tokens : List (List ℕ) → List (List ℕ)
unfolding tokens_of split_at
tokens [] = []
tokens (v ∷ vs) = tokens_of (split_at 44 v) ++ tokens vs

unfoldable pub all_tokens : List (List ℕ) → Bool
all_tokens [] = true
all_tokens (t ∷ ts) = is_token t && all_tokens ts

-- What the tokens name, but for identity: a coding that is undone, or none.
abbrev pub unless_identity : Named → List (Option Coding) → List (Option Coding)
unless_identity identity ns = ns
unless_identity unknown ns = none ∷ ns
unless_identity (undone c) ns = some c ∷ ns

unfoldable pub codings_of : List (List ℕ) → List (Option Coding)
unfolding named
codings_of [] = []
codings_of (t ∷ ts) = unless_identity (named t) (codings_of ts)

-- None is supported, and one that is undone; nothing else.
abbrev pub judge_codings : List (Option Coding) → Option Coding × Verdict
judge_codings [] = (none, supported)
judge_codings (some c ∷ []) = (some c, supported)
judge_codings _ = (none, unsupported)

unfoldable pub judge : List (List ℕ) → Option Coding × Verdict
unfolding all_tokens codings_of
judge ts = if all_tokens ts then judge_codings (codings_of ts) else (none, malformed)

split_at-none : (c : ℕ) (xs : List ℕ) → index_byte xs c ≡ none → split_at c xs ≡ xs ∷ []
unfolding index_byte split_at push_byte
split_at-none c [] e = refl
split_at-none c (x ∷ xs) e = ground (arith, split_at-none c xs)

split_at-some :
    (c i : ℕ) (xs : List ℕ)
    → index_byte xs c ≡ some i
    → split_at c xs ≡ take i xs ∷ split_at c (drop (suc i) xs)
unfolding index_byte split_at push_byte
split_at-some c i [] e = cc
split_at-some c zero (x ∷ xs) e = ground (arith, split_at-some c zero xs)
split_at-some c (suc i) (x ∷ xs) e = ground (arith, split_at-some c i xs)

-- The tokens read one after the other.
unfoldable pub read_tokens : List (List ℕ) → Found → Option Found
read_tokens [] f = some f
read_tokens (t ∷ ts) f = and_then (read_token t f) (read_tokens ts)

and_then-ext :
    (o : Option Found) (k m : Found → Option Found)
    → ((g : Found) → k g ≡ m g)
    → and_then o k ≡ and_then o m
and_then-ext none k m h = refl
and_then-ext (some g) k m h = h g

and_then_assoc :
    (o : Option Found) (k m : Found → Option Found)
    → and_then o (λ g. and_then (k g) m) ≡ and_then (and_then o k) m
and_then_assoc none k m = refl
and_then_assoc (some g) k m = refl

read_tokens-append :
    (ts us : List (List ℕ)) (f : Found)
    → read_tokens (ts ++ us) f ≡ and_then (read_tokens ts f) (read_tokens us)
unfolding read_tokens
read_tokens-append [] us f = refl
read_tokens-append (t ∷ ts) us f =
    and_then-ext (read_token t f) (read_tokens (ts ++ us))
      (λ g. and_then (read_tokens ts g) (read_tokens us)) (read_tokens-append ts us)
    ∙ and_then_assoc (read_token t f) (read_tokens ts) (read_tokens us)

read_tokens-or_skip :
    (t : List ℕ) (ts : List (List ℕ)) (f : Found)
    → read_tokens (or_skip t ts) f ≡ and_then (read_token t f) (read_tokens ts)
unfolding read_tokens
read_tokens-or_skip [] ts f = refl
read_tokens-or_skip (c ∷ cs) ts f = refl

tokens_of-split :
    (v : List ℕ) (o : Option ℕ)
    → index_byte v 44 ≡ o
    → tokens_of (split_at 44 v) ≡ or_skip (trim (before v o)) (tokens_of (split_at 44 (after v o)))
unfolding tokens_of trim split_at
tokens_of-split v none e = ap tokens_of (split_at-none 44 v e)
tokens_of-split v (some i) e = ap tokens_of (split_at-some 44 i v e)

length-after : (c : ℕ) (cs : List ℕ) (o : Option ℕ) → length (after (c ∷ cs) o) ≤ length cs
length-after c cs none = omega arith
length-after c cs (some i) = omega (arith, length-drop i cs)

read_value-tokens :
    (fuel : ℕ) (v : List ℕ) (f : Found)
    → length v ≤ fuel
    → read_value fuel v f ≡ read_tokens (tokens_of (split_at 44 v)) f
unfolding read_value tokens_of split_at trim read_tokens
read_value-tokens fuel [] f h = refl
read_value-tokens zero (c ∷ cs) f h = absurd (omega arith)
read_value-tokens (suc fuel) (c ∷ cs) f h =
    and_then-ext (read_token (trim (before (c ∷ cs) (index_byte (c ∷ cs) 44))) f)
      (read_value fuel (after (c ∷ cs) (index_byte (c ∷ cs) 44)))
      (read_tokens (tokens_of (split_at 44 (after (c ∷ cs) (index_byte (c ∷ cs) 44)))))
      (λ g.
        read_value-tokens fuel (after (c ∷ cs) (index_byte (c ∷ cs) 44)) g
          (omega (arith, length-after c cs (index_byte (c ∷ cs) 44))))
    ∙ sym (
        ap (λ (ts : List (List ℕ)). read_tokens ts f)
          (tokens_of-split (c ∷ cs) (index_byte (c ∷ cs) 44) refl)
        ∙ read_tokens-or_skip (trim (before (c ∷ cs) (index_byte (c ∷ cs) 44)))
            (tokens_of (split_at 44 (after (c ∷ cs) (index_byte (c ∷ cs) 44)))) f)

read_values-tokens : (vs : List (List ℕ)) (f : Found) → read_values vs f ≡ read_tokens (tokens vs) f
unfolding read_values tokens read_tokens
read_values-tokens [] f = refl
read_values-tokens (v ∷ vs) f =
    ap (λ (o : Option Found). and_then o (read_values vs))
      (read_value-tokens (length v) v f (omega arith))
    ∙ and_then-ext (read_tokens (tokens_of (split_at 44 v)) f) (read_values vs)
        (read_tokens (tokens vs)) (read_values-tokens vs)
    ∙ sym (read_tokens-append (tokens_of (split_at 44 v)) (tokens vs) f)

-- What is found once these are read.
unfoldable found_of : List (Option Coding) → Found
found_of [] = nothing_found
found_of (none ∷ ns) = record {
  coding = none;
  count = (found_of ns).count + 1;
  some_unknown = true;
}
found_of (some c ∷ ns) = record {
  coding = some c;
  count = (found_of ns).count + 1;
  some_unknown = (found_of ns).some_unknown;
}

found_of-undone :
    (ns : List (Option Coding)) (c : Coding)
    → count_named (undone c) (found_of ns) ≡ found_of (ns ++ (some c ∷ []))
unfolding found_of
found_of-undone [] c = ground arith
found_of-undone (none ∷ ns) c = ground (arith, found_of-undone ns c)
found_of-undone (some d ∷ ns) c = ground (arith, found_of-undone ns c)

found_of-unknown :
    (ns : List (Option Coding)) → count_named unknown (found_of ns) ≡ found_of (ns ++ (none ∷ []))
unfolding found_of
found_of-unknown [] = ground arith
found_of-unknown (none ∷ ns) = ground (arith, found_of-unknown ns)
found_of-unknown (some d ∷ ns) = ground (arith, found_of-unknown ns)

decide-codings : (ns : List (Option Coding)) → decide (some (found_of ns)) ≡ judge_codings ns
unfolding found_of
decide-codings [] = refl
decide-codings (some c ∷ []) = refl
decide-codings (none ∷ ns) = refl
decide-codings (some c ∷ none ∷ ns) = refl
decide-codings (some c ∷ some d ∷ ns) = ground arith

abbrev if_tokens : Bool → Found → Option Found
if_tokens b f = if b then some f else none

step_lem :
    (b : Bool) (n : Named) (ns : List (Option Coding)) (ts : List (List ℕ))
    → ((ms : List (Option Coding))
        → read_tokens ts (found_of ms) ≡ if_tokens (all_tokens ts) (found_of (ms ++ codings_of ts)))
    → and_then (if not b then none else some (count_named n (found_of ns))) (read_tokens ts)
      ≡ if_tokens (b && all_tokens ts) (found_of (ns ++ unless_identity n (codings_of ts)))
step_lem false n ns ts r = refl
step_lem true identity ns ts r = r ns
step_lem true unknown ns ts r =
    ap (read_tokens ts) (found_of-unknown ns)
    ∙ r (ns ++ (none ∷ []))
    ∙ ap (λ (ms : List (Option Coding)). if_tokens (all_tokens ts) (found_of ms))
        (append_assoc ns (none ∷ []) (codings_of ts))
step_lem true (undone c) ns ts r =
    ap (read_tokens ts) (found_of-undone ns c)
    ∙ r (ns ++ (some c ∷ []))
    ∙ ap (λ (ms : List (Option Coding)). if_tokens (all_tokens ts) (found_of ms))
        (append_assoc ns (some c ∷ []) (codings_of ts))

abbrev AllFull : List (List ℕ) → Type 0
AllFull [] = Unit
AllFull (t ∷ ts) = (t ≢ []) × AllFull ts

read_tokens-if_tokens :
    (ts : List (List ℕ)) (ns : List (Option Coding))
    → AllFull ts
    → read_tokens ts (found_of ns) ≡ if_tokens (all_tokens ts) (found_of (ns ++ codings_of ts))
unfolding read_tokens all_tokens codings_of
read_tokens-if_tokens [] ns h =
    ap (λ (ms : List (Option Coding)). some (found_of ms)) (sym (append-nil ns))
read_tokens-if_tokens ([] ∷ ts) ns (h, r) = absurd (h refl)
read_tokens-if_tokens ((c ∷ cs) ∷ ts) ns (h, r) =
    step_lem (is_token (c ∷ cs)) (named (c ∷ cs)) ns ts (λ ms. read_tokens-if_tokens ts ms r)

or_skip-AllFull : (t : List ℕ) (ts : List (List ℕ)) → AllFull ts → AllFull (or_skip t ts)
or_skip-AllFull [] ts h = h
or_skip-AllFull (c ∷ cs) ts h = ((λ e. cc), h)

tokens_of-AllFull : (es : List (List ℕ)) → AllFull (tokens_of es)
unfolding tokens_of
tokens_of-AllFull [] = tt
tokens_of-AllFull (e ∷ es) = or_skip-AllFull (trim e) (tokens_of es) (tokens_of-AllFull es)

AllFull-append : (ts us : List (List ℕ)) → AllFull ts → AllFull us → AllFull (ts ++ us)
AllFull-append [] us h k = k
AllFull-append (t ∷ ts) us (h, r) k = (h, AllFull-append ts us r k)

tokens-AllFull : (vs : List (List ℕ)) → AllFull (tokens vs)
unfolding tokens
tokens-AllFull [] = tt
tokens-AllFull (v ∷ vs) =
    AllFull-append (tokens_of (split_at 44 v)) (tokens vs) (tokens_of-AllFull (split_at 44 v))
      (tokens-AllFull vs)

decide-if_tokens :
    (b : Bool) (ns : List (Option Coding))
    → decide (if_tokens b (found_of ns)) ≡ (if b then judge_codings ns else (none, malformed))
decide-if_tokens true ns = decide-codings ns
decide-if_tokens false ns = refl

-- The verdict on the values is the one on all their tokens together.
pub parse_list-judge : (vs : List (List ℕ)) → parse_list vs ≡ judge (tokens vs)
unfolding parse_list judge found_of
parse_list-judge vs =
    ap decide (
      read_values-tokens vs nothing_found
      ∙ read_tokens-if_tokens (tokens vs) [] (tokens-AllFull vs))
    ∙ decide-if_tokens (all_tokens (tokens vs)) (codings_of (tokens vs))

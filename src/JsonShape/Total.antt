-- ===== src/JsonShape/Total.antt =====
-- jsonshape/jsonshape.go: the extractor ends.
use edge_observer.Prelude.{
  ℕ, zero, suc, ◌+◌, ◌≤◌, ◌<◌, ◌≡◌, ◌≢◌, refl, Bool, true, false, not, List, arith, ltb,
  if◌then◌else◌, Bool-cases, inl, inr,
}
use edge_observer.JsonShape.Kinds.{Shape, Fields, Shapes, Limits, or_defaults, no_fields, no_shapes}
use edge_observer.JsonShape.{
  Token, is_error, text, Decoder, Extractor, Read, stuck, refused, read, Call, behind, kept_in,
  keeps_field, with_field, object_loop, place_shape, array_extractor, array_shapes, array_elided,
  keeps_element, array_loop, value_of, value, extract, open_object, open_array, number, truth,
  nothing, unknown_token, other_delim, end_of_input, failed, Placed, dropped, known_shape, too_many,
  appended, ◌>>=◌, member_name,
}

module _ {D : Type 0} (json : Decoder D) (l : Limits) where
  -- A read that ended, and left fewer tokens than there were.
  abbrev Ends : ℕ → Read (Extractor D × Shape) → Type 0
  Ends before stuck = ⊥
  Ends before refused = Unit {0}
  Ends before (read (e, s)) = json.left e.decoder < before

  Ends-le : (m n : ℕ) (r : Read (Extractor D × Shape)) → m ≤ n → Ends m r → Ends n r
  Ends-le m n stuck h e = e
  Ends-le m n refused h e = tt
  Ends-le m n (read (f, s)) h e = omega arith

  -- A call ends, where the tokens left are below its fuel.
  abbrev CallEnds : Call json l → ℕ → Type 0
  CallEnds call fuel =
      (depth : ℕ) (hold : Bool) (e : Extractor D)
      → json.left e.decoder < fuel
      → Ends (json.left e.decoder) (call depth hold e)

  unless_error :
      (t : Token) (e : Extractor D) (s : Shape) (n : ℕ)
      → (is_error t ≡ false → json.left e.decoder < n)
      → Ends n (if is_error t then refused else read (e, s))
  unless_error t e s n h = elim (Bool-cases (is_error t)) [ inl b ↦ rw b tt | inr b ↦ rw b (h b) ]

  and_then :
      (m n : ℕ) (r : Read (Extractor D × Shape))
      (k : Extractor D × Shape → Read (Extractor D × Shape))
      → Ends m r
      → ((x : Extractor D × Shape) → json.left x.0.decoder < m → Ends n (k x))
      → Ends n (r >>= k)
  and_then m n stuck k e h = e
  and_then m n refused k e h = tt
  and_then m n (read (f, s)) k e h = h (f, s) e

  named :
      (n : ℕ) {P : Type 0} (t : Token) (k : List ℕ → Read (Extractor D × Shape))
      → ((name : List ℕ) → P → Ends n (k name))
      → (is_error t ≡ false → P)
      → Ends n (member_name t >>= k)
  named n (text name) k h g = h name (g refl)
  named n open_object k h g = tt
  named n open_array k h g = tt
  named n other_delim k h g = tt
  named n (number s) k h g = tt
  named n truth k h g = tt
  named n nothing k h g = tt
  named n unknown_token k h g = tt
  named n end_of_input k h g = tt
  named n failed k h g = tt

  either :
      (n : ℕ) (b : Bool) (x y : Read (Extractor D × Shape))
      → Ends n x
      → Ends n y
      → Ends n (if not b then x else y)
  either n true x y h k = k
  either n false x y h k = h

  kept_in-left :
      (keep : Bool) (e : Extractor D)
      → json.left (kept_in json l keep e).decoder ≡ json.left e.decoder
  kept_in-left true e = refl
  kept_in-left false e = refl

  object_loop-Ends :
      (call : Call json l) (fuel depth : ℕ) (hold : Bool) (e : Extractor D) (fs : Fields)
      (elided : Bool)
      → CallEnds call fuel
      → json.left e.decoder < fuel
      → Ends (json.left e.decoder) (object_loop json l call fuel depth hold e fs elided)
  unfolding object_loop
  object_loop-Ends call zero depth hold e fs elided c h = absurd (omega arith)
  object_loop-Ends call (suc fuel) depth hold e fs elided c h =
      either (json.left e.decoder) (json.more e.decoder) _ _
        (unless_error (json.token e.decoder).1 (behind json l e) _ _ (json.reads e.decoder))
        (named (json.left e.decoder) (json.token e.decoder).1 _
          (λ name lt.
            and_then (json.left (behind json l e).decoder) (json.left e.decoder) _ _
              (c (depth + 1) (keeps_field json l hold e fs) (behind json l e) (omega arith))
              (λ r lt'.
                let next = kept_in json l (keeps_field json l hold e fs) r.0 in
                let same = kept_in-left (keeps_field json l hold e fs) r.0 in
                Ends-le (json.left next.decoder) (json.left e.decoder) _ (omega (arith, same)) (
                  object_loop-Ends call fuel depth hold next
                    (if keeps_field json l hold e fs then with_field json l name r.1 fs else fs)
                    (if keeps_field json l hold e fs then elided else true)
                    (λ d k f q. c d k f (omega arith)) (omega (arith, same)))))
          (json.reads e.decoder))

  placed-left :
      (p : Placed) (e : Extractor D)
      → json.left (array_extractor json l p e).decoder ≡ json.left e.decoder
  placed-left dropped e = refl
  placed-left known_shape e = refl
  placed-left too_many e = refl
  placed-left appended e = refl

  array_loop-Ends :
      (call : Call json l) (fuel depth : ℕ) (hold : Bool) (e : Extractor D) (ss : Shapes)
      (count : ℕ) (elided : Bool)
      → CallEnds call fuel
      → json.left e.decoder < fuel
      → Ends (json.left e.decoder) (array_loop json l call fuel depth hold e ss count elided)
  unfolding array_loop
  array_loop-Ends call zero depth hold e ss count elided c h = absurd (omega arith)
  array_loop-Ends call (suc fuel) depth hold e ss count elided c h =
      either (json.left e.decoder) (json.more e.decoder) _ _
        (unless_error (json.token e.decoder).1 (behind json l e) _ _ (json.reads e.decoder))
        (and_then (json.left e.decoder) (json.left e.decoder) _ _
          (c (depth + 1) (keeps_element json l hold e) e h)
          (λ r lt.
            let p = place_shape json l (keeps_element json l hold e) ss r.1 in
            let next = array_extractor json l p r.0 in
            let same = placed-left p r.0 in
            Ends-le (json.left next.decoder) (json.left e.decoder) _ (omega (arith, same)) (
              array_loop-Ends call fuel depth hold next (array_shapes json l p ss r.1) (count + 1)
                (array_elided json l p elided) (λ d k f q. c d k f (omega arith))
                (omega (arith, same)))))

  value_of-Ends :
      (call : Call json l) (fuel depth n : ℕ) (hold : Bool) (e : Extractor D) (t : Token)
      → CallEnds call fuel
      → n ≤ fuel
      → (is_error t ≡ false → json.left e.decoder < n)
      → Ends n (value_of json l call fuel depth hold e t)
  unfolding value_of
  value_of-Ends call fuel depth n hold e open_object c h g =
      Ends-le _ n _ (omega (arith, g refl))
        (object_loop-Ends call fuel depth hold e no_fields false c (omega (arith, g refl)))
  value_of-Ends call fuel depth n hold e open_array c h g =
      Ends-le _ n _ (omega (arith, g refl))
        (array_loop-Ends call fuel depth hold e no_shapes 0 false c (omega (arith, g refl)))
  value_of-Ends call fuel depth n hold e other_delim c h g = tt
  value_of-Ends call fuel depth n hold e (text s) c h g = g refl
  value_of-Ends call fuel depth n hold e (number s) c h g = g refl
  value_of-Ends call fuel depth n hold e truth c h g = g refl
  value_of-Ends call fuel depth n hold e nothing c h g = g refl
  value_of-Ends call fuel depth n hold e unknown_token c h g = tt
  value_of-Ends call fuel depth n hold e end_of_input c h g = tt
  value_of-Ends call fuel depth n hold e failed c h g = tt

  value-Ends : (fuel : ℕ) → CallEnds (value json l fuel) fuel
  unfolding value
  value-Ends zero depth hold e h = absurd (omega arith)
  value-Ends (suc fuel) depth hold e h = elim (Bool-cases (ltb l.max_depth depth)) [
    | inl deep ↦ rw deep tt
    | inr b ↦ rw b (
        value_of-Ends (value json l fuel) fuel depth (json.left e.decoder) hold
          (record (behind json l e) { nodes = e.nodes + 1 }) (json.token e.decoder).1
          (value-Ends fuel) (omega arith) (json.reads e.decoder))
  ]

  ends-stuck : (n : ℕ) (r : Read (Extractor D × Shape)) → Ends n r → r ≢ stuck
  ends-stuck n stuck h e = h
  ends-stuck n refused h e = cc
  ends-stuck n (read x) h e = cc

  shut_off :
      (r : Read (Extractor D × Shape)) (k : Extractor D × Shape → Read Shape)
      → r ≢ stuck
      → ((x : Extractor D × Shape) → k x ≢ stuck)
      → (r >>= k) ≢ stuck
  shut_off stuck k h g = λ e. h refl
  shut_off refused k h g = λ e. cc
  shut_off (read x) k h g = g x

-- Whatever tokens the decoder answers, the extractor ends: with the shape of a value or a refusal. The
-- fuel that it is given never runs out.
pub extract_ends :
    {D : Type 0} (json : Decoder D) (limits : Limits) (d : D) → extract json limits d ≢ stuck
unfolding extract
extract_ends json limits d =
    shut_off json (or_defaults limits) _ _
      (ends-stuck json (or_defaults limits) _ _ (
        value-Ends json (or_defaults limits) (json.left d + 1) 1 true
          (record { decoder = d; nodes = 0; elided = false }) (omega arith)))
      (λ r e. ground arith)

-- ===== src/JsonShape/Bounds/Loops.antt =====
-- jsonshape/jsonshape.go: what the extractor holds at each step.
use edge_observer.Prelude.{
  ℕ, zero, suc, ◌+◌, ◌-◌, ◌≤◌, ◌<◌, ◌≡◌, refl, Bool, true, false, not, List, [], arith, length, ltb,
  if◌then◌else◌, Bool-cases, inl, inr,
}
use edge_observer.JsonShape.Kinds.{
  Shape, Fields, shape, object, no_shapes, add_field, length_fields, length_shapes, Limits,
}
use edge_observer.JsonShape.{
  Token, is_error, Decoder, Extractor, Read, stuck, refused, read, ◌>>=◌, member_name, Call, behind,
  kept_in, keeps_field, with_field, object_loop,
}
use edge_observer.JsonShape.Bounds.{
  size, size_fields, depth_of, depth_fields, InLimits, FieldsIn, length_fields-add, size_fields-add,
  depth_fields-add, FieldsIn-add,
}

-- What is read, if it is, has this.
abbrev pub Sat : {A : Type 0} → (A → Type 0) → Read A → Type 0
Sat P stuck = Unit {0}
Sat P refused = Unit {0}
Sat P (read a) = P a

pub Sat-bind :
    {A B : Type 0} (P : A → Type 0) (Q : B → Type 0) (r : Read A) (k : A → Read B)
    → Sat P r
    → ((a : A) → P a → Sat Q (k a))
    → Sat Q (r >>= k)
Sat-bind P Q stuck k p h = tt
Sat-bind P Q refused k p h = tt
Sat-bind P Q (read a) k p h = h a p

pub Sat-if :
    {A : Type 0} (P : A → Type 0) (b : Bool) (x y : Read A)
    → Sat P x
    → Sat P y
    → Sat P (if b then x else y)
Sat-if P true x y p q = p
Sat-if P false x y p q = q

Sat-any : (r : Read (List ℕ)) → Sat (λ _. Unit {0}) r
Sat-any stuck = tt
Sat-any refused = tt
Sat-any (read a) = tt

module _ {D : Type 0} (json : Decoder D) (l : Limits) where
  -- A shape that a call at this depth reads, from so many nodes: it is within the limits, no deeper
  -- than what is left of the depth, and no larger than what was counted and what is left to hold.
  pub record Fits (depth nodes : ℕ) (r : Extractor D × Shape) : Type 0 where
    pub inside : InLimits l r.1
    pub shallow : depth_of r.1 + depth ≤ l.max_depth + 1
    pub counted : size r.1 + nodes ≤ r.0.nodes
    pub small : size r.1 ≤ 1 + (l.max_nodes - (nodes + 1))

  abbrev pub CallFits : Call json l → Type 0
  CallFits call =
      (depth : ℕ) (hold : Bool) (e : Extractor D) → Sat (Fits depth e.nodes) (call depth hold e)

  -- The members of an object at this depth, begun at so many nodes.
  pub record Members (depth nodes : ℕ) (e : Extractor D) (fs : Fields) : Type 0 where
    pub inside : FieldsIn l fs
    pub few : length_fields fs ≤ l.max_fields
    pub shallow : depth_fields fs + depth ≤ l.max_depth
    pub counted : size_fields fs + nodes + 1 ≤ e.nodes
    pub small : size_fields fs ≤ l.max_nodes - (nodes + 1)

  object-Fits :
      (depth nodes : ℕ) (e e' : Extractor D) (fs : Fields) (b : Bool)
      → e'.nodes ≡ e.nodes
      → Members depth nodes e fs
      → Fits depth nodes (e', shape object fs no_shapes 0 b)
  unfolding size depth_of InLimits length_shapes
  object-Fits depth nodes e e' fs b s m = record {
    inside = (m.few, omega arith, m.inside, tt);
    shallow = omega (arith, m.shallow);
    counted = omega (arith, m.counted);
    small = omega (arith, m.small);
  }

  added-Members :
      (depth nodes : ℕ) (e : Extractor D) (fs : Fields) (name : List ℕ) (b : Bool)
      (r : Extractor D × Shape)
      → length name ≤ l.max_name_bytes
      → length_fields fs < l.max_fields
      → e.nodes < l.max_nodes
      → Members depth nodes e fs
      → Fits (depth + 1) e.nodes r
      → Members depth nodes r.0 (add_field fs name b r.1)
  added-Members depth nodes e fs name b r n lt room m f = record {
    inside = FieldsIn-add l fs name b r.1 m.inside n f.inside;
    few = omega (arith, length_fields-add fs name b r.1);
    shallow = omega (arith, depth_fields-add fs name b r.1, m.shallow, f.shallow);
    counted = omega (arith, size_fields-add fs name b r.1, m.counted, f.counted);
    small = omega (arith, size_fields-add fs name b r.1, m.counted, f.small);
  }

  field_room :
      (hold : Bool) (e : Extractor D) (fs : Fields)
      → keeps_field json l hold e fs ≡ true
      → (length_fields fs < l.max_fields) × (e.nodes < l.max_nodes)
  field_room hold e fs h = ground arith

  -- The object with one more member, kept or not.
  more-Members :
      (depth nodes : ℕ) (hold : Bool) (e : Extractor D) (fs : Fields) (name : List ℕ)
      (r : Extractor D × Shape)
      → Members depth nodes e fs
      → Fits (depth + 1) e.nodes r
      → Members depth nodes
          (kept_in json l (keeps_field json l hold e fs) r.0)
          (if keeps_field json l hold e fs then with_field json l name r.1 fs else fs)
  more-Members depth nodes hold e fs name r m f = by_keep (keeps_field json l hold e fs) refl
    where
      by_keep :
          (keep : Bool)
          → keeps_field json l hold e fs ≡ keep
          → Members depth nodes
              (kept_in json l keep r.0)
              (if keep then with_field json l name r.1 fs else fs)
      by_keep false k = record {
        inside = m.inside;
        few = m.few;
        shallow = m.shallow;
        counted = omega (arith, m.counted, f.counted);
        small = m.small;
      }
      by_keep true k =
          let (lt, room) = field_room hold e fs k in
          elim (Bool-cases (ltb l.max_name_bytes (length name))) [
            | inl long ↦
                rw long (added-Members depth nodes e fs [] true r (omega arith) lt room m f)
            | inr fits ↦
                rw fits (added-Members depth nodes e fs name false r (ground arith) lt room m f)
          ]

  pub Sat-end :
      (depth nodes : ℕ) (t : Token) (r : Extractor D × Shape)
      → Fits depth nodes r
      → Sat (Fits depth nodes) (if is_error t then refused else read r)
  Sat-end depth nodes t r f = Sat-if (Fits depth nodes) (is_error t) refused (read r) tt f

  pub object_loop-Sat :
      (call : Call json l) (fuel depth nodes : ℕ) (hold : Bool) (e : Extractor D) (fs : Fields)
      (elided : Bool)
      → CallFits call
      → Members depth nodes e fs
      → Sat (Fits depth nodes) (object_loop json l call fuel depth hold e fs elided)
  unfolding object_loop
  object_loop-Sat call zero depth nodes hold e fs elided c m = tt
  object_loop-Sat call (suc fuel) depth nodes hold e fs elided c m =
      Sat-if (Fits depth nodes) (not (json.more e.decoder)) _ _
        (Sat-end depth nodes (json.token e.decoder).1 _
          (object-Fits depth nodes e (behind json l e) fs elided refl m))
        (Sat-bind (λ _. Unit {0}) (Fits depth nodes) (member_name (json.token e.decoder).1) _
          (Sat-any (member_name (json.token e.decoder).1))
          (λ name u.
            Sat-bind (Fits (depth + 1) e.nodes) (Fits depth nodes) _ _
              (c (depth + 1) (keeps_field json l hold e fs) (behind json l e))
              (λ r f.
                object_loop-Sat call fuel depth nodes hold _ _ _ c
                  (more-Members depth nodes hold e fs name r m f))))

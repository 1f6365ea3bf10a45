-- ===== src/Sink/Lines/Alone.antt =====
-- sink/final.go, sink/file.go: what a delivered line adds to its file.
use edge_observer.Prelude.{
  ℕ, zero, suc, ◌≤◌, ◌<◌, ◌≡◌, ◌≢◌, ◌∙◌, refl, sym, Bool, true, false, not, ◌||◌, List, [], ◌∷◌,
  ◌++◌, ◌==◌, length, take, get_or, arith, Bool-cases, inl, inr,
}
use edge_observer.Prelude.Int.{pos}
use mathlib.Core.List.{append-nil, append_assoc}
use edge_observer.Sink.Lines.{
  Writer, ends_open, newline, FileSink, Wrote, put, write_rest, file_write,
}

abbrev pub AllNewlines : List ℕ → Type 0
AllNewlines [] = Unit {0}
AllNewlines (c ∷ cs) = (c ≡ 10) × AllNewlines cs

pub AllNewlines-append : (xs ys : List ℕ) → AllNewlines xs → AllNewlines ys → AllNewlines (xs ++ ys)
AllNewlines-append [] ys h k = k
AllNewlines-append (x ∷ xs) ys (h, hs) k = (h, AllNewlines-append xs ys hs k)

pub AllNewlines-take : (n : ℕ) → AllNewlines (take n newline)
AllNewlines-take zero = tt
AllNewlines-take (suc zero) = (refl, tt)
AllNewlines-take (suc (suc n)) = (refl, tt)

ends_open-cons : (c : ℕ) (xs : List ℕ) → xs ≢ [] → ends_open (c ∷ xs) ≡ ends_open xs
unfolding ends_open
ends_open-cons c [] h = absurd (h refl)
ends_open-cons c (d ∷ xs) h = refl

pub append-ne : (xs ys : List ℕ) → ys ≢ [] → xs ++ ys ≢ []
append-ne [] ys h = h
append-ne (x ∷ xs) ys h = λ e. cc

pub ends_open-append : (xs ys : List ℕ) → ys ≢ [] → ends_open (xs ++ ys) ≡ ends_open ys
ends_open-append [] ys h = refl
ends_open-append (x ∷ xs) ys h =
    ends_open-cons x (xs ++ ys) (append-ne xs ys h) ∙ ends_open-append xs ys h

-- A file's tail is open only where its sink knows it, or the destination does.
abbrev pub Covered : FileSink → Bool → Type 0
Covered f d = ends_open f.content ≡ true → (f.dirty || d) ≡ true

pub ends_open-take :
    (n : ℕ) (line : List ℕ)
    → suc n ≤ length line
    → ends_open (take (suc n) line) ≡ not (get_or line n 0 == 10)
unfolding ends_open
ends_open-take n [] h = absurd (omega arith)
ends_open-take zero (c ∷ cs) h = refl
ends_open-take (suc n) (c ∷ []) h = absurd (omega arith)
ends_open-take (suc n) (c ∷ d ∷ cs) h = ends_open-take n (d ∷ cs) (omega arith)

-- What a write adds: newlines, and then the first `n` bytes of the line.
pub record Adds (before after : List ℕ) (zs line : List ℕ) (n : ℕ) : Type 0 where
  pub newlines : AllNewlines zs
  pub within : n ≤ length line
  pub added : after ≡ (before ++ zs) ++ take n line

pub Adds-after :
    (before zs : List ℕ) {middle after line ys : List ℕ} {n : ℕ}
    → middle ≡ before ++ zs
    → AllNewlines zs
    → Adds middle after ys line n
    → Adds before after (zs ++ ys) line n
Adds-after before zs {ys = ys} e h a = record {
  newlines = AllNewlines-append zs ys h a.newlines;
  within = a.within;
  added = rw (a.added, e, append_assoc before zs ys);
}

-- The same of a write of a sink.
pub record FileAdds (line : List ℕ) (f : FileSink) (w : Wrote FileSink) (zs : List ℕ) (n : ℕ)
    : Type 0 where
  pub adds : Adds f.content w.sink.content zs line n
  pub taken : w.taken ≡ pos n
  pub alone : Covered f false → 0 < n → ends_open (f.content ++ zs) ≡ false
  pub kept : (d : Bool) → Covered f d → n ≡ 0 → Covered w.sink d
  pub done : w.failed ≡ false → n ≡ length line

module _ (os : Writer) where
  refused :
      (line : List ℕ) (f : FileSink)
      → FileAdds line f (record { sink = f; taken = pos 0; failed = true }) [] 0
  refused line f = record {
    adds = record {
      newlines = tt;
      within = omega arith;
      added = sym (append-nil (f.content ++ []) ∙ append-nil f.content);
    };
    taken = refl;
    alone = λ c h. absurd (omega arith);
    kept = λ d c e. c;
    done = λ e. cc;
  }

  clean :
      (line : List ℕ) (f : FileSink)
      → f.dirty ≡ false
      → FileAdds line f (write_rest os line f) [] (os.writes f.content line).0
  unfolding write_rest
  clean line f h = record {
    adds = record {
      newlines = tt;
      within = os.within f.content line;
      added = rw (append-nil f.content);
    };
    taken = refl;
    alone = λ c lt. rw (append-nil f.content) (ground (arith, c));
    kept = λ d c e. rw (e, append-nil f.content) c;
    done = λ e. ground arith;
  }

  torn :
      (line : List ℕ) (f : FileSink)
      → f.dirty ≡ true
      → FileAdds line f
          (record { sink = put os newline f; taken = pos 0; failed = true })
          (take (os.writes f.content newline).0 newline)
          0
  torn line f h = record {
    adds = record {
      newlines = AllNewlines-take (os.writes f.content newline).0;
      within = omega arith;
      added = sym (append-nil (f.content ++ take (os.writes f.content newline).0 newline));
    };
    taken = refl;
    alone = λ c lt. absurd (omega arith);
    kept = λ d c e o. ground arith;
    done = λ e. cc;
  }

  ended_open : (f : FileSink) → ends_open (f.content ++ newline) ≡ false
  unfolding ends_open
  ended_open f = ends_open-append f.content newline (λ e. cc)

  -- The sink behind a newline that was written.
  abbrev repaired : FileSink → FileSink
  repaired f = record f { content = f.content ++ newline; dirty = false }

  ended :
      (line : List ℕ) (f : FileSink)
      → FileAdds line f
          (write_rest os line (repaired f))
          newline
          (os.writes (f.content ++ newline) line).0
  ended line f =
      let c = clean line (repaired f) refl in
      record {
        adds = Adds-after f.content newline refl (refl, tt) c.adds;
        taken = c.taken;
        alone = λ k lt. ended_open f;
        kept = λ d k e. c.kept d (λ o. absurd (ground (arith, ended_open f))) e;
        done = c.done;
      }

  put-newline :
      (f : FileSink)
      → (os.writes f.content newline).0 ≡ 1
      → record (put os newline f) { dirty = false } ≡ repaired f
  put-newline f h = rw h

  write_torn :
      (over : Bool) (line : List ℕ) (f : FileSink)
      → (over || not f.opened) ≡ false
      → f.dirty ≡ true
      → ((os.writes f.content newline).1 || not ((os.writes f.content newline).0 == 1)) ≡ true
      → file_write os over line f ≡ record { sink = put os newline f; taken = pos 0; failed = true }
  unfolding file_write
  write_torn over line f h d t = ground arith

  write_ended :
      (over : Bool) (line : List ℕ) (f : FileSink)
      → (over || not f.opened) ≡ false
      → f.dirty ≡ true
      → ((os.writes f.content newline).1 || not ((os.writes f.content newline).0 == 1)) ≡ false
      → file_write os over line f ≡ write_rest os line (record (put os newline f) { dirty = false })
  unfolding file_write
  write_ended over line f h d t = ground arith

  write_clean :
      (over : Bool) (line : List ℕ) (f : FileSink)
      → (over || not f.opened) ≡ false
      → f.dirty ≡ false
      → file_write os over line f ≡ write_rest os line f
  unfolding file_write
  write_clean over line f h d = ground arith

  write_refused :
      (over : Bool) (line : List ℕ) (f : FileSink)
      → (over || not f.opened) ≡ true
      → file_write os over line f ≡ record { sink = f; taken = pos 0; failed = true }
  unfolding file_write
  write_refused over line f h = ground arith

  -- Each write adds newlines and the first bytes of the line, in one of four ways.
  pub file_write-adds :
      (over : Bool) (line : List ℕ) (f : FileSink)
      → (zs : List ℕ) × (n : ℕ) × FileAdds line f (file_write os over line f) zs n
  file_write-adds over line f = elim (Bool-cases (over || not f.opened)) [
    | inl r ↦ ([], 0, rw (write_refused over line f r) (refused line f))
    | inr on ↦ elim (Bool-cases f.dirty) [
      | inr c ↦
          ([], (os.writes f.content line).0, rw (write_clean over line f on c) (clean line f c))
      | inl d ↦
          elim (Bool-cases
            ((os.writes f.content newline).1 || not ((os.writes f.content newline).0 == 1))) [
              | inl t ↦ (
                take (os.writes f.content newline).0 newline,
                0,
                rw (write_torn over line f on d t) (torn line f d),
              )
              | inr e ↦ (
                newline,
                (os.writes (f.content ++ newline) line).0,
                rw (write_ended over line f on d e, put-newline f (ground arith)) (ended line f),
              )
            ]
    ]
  ]

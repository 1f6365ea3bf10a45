-- ===== src/Sink/Lines/Whole.antt =====
-- sink/final.go, `writeLine`: what a destination adds to its file.
use edge_observer.Prelude.{
  ℕ, zero, suc, ◌-◌, ◌≤◌, ◌<◌, ◌≡◌, ◌≢◌, ◌∙◌, refl, sym, ap, Bool, true, false, not, ◌||◌, List, [],
  ◌∷◌, ◌++◌, ◌==◌, ltb, if◌then◌else◌, length, take, get_or, arith, Bool-cases, inl, inr,
}
use edge_observer.Prelude.Int.{pos}
use mathlib.Core.List.{append-nil, append_assoc}
use edge_observer.Sink.Lines.{
  Writer, ends_open, newline, FileSink, Wrote, file_write, Context, Line, Delivered, write_repaired,
  write_line,
}
use edge_observer.Sink.Lines.Alone.{
  AllNewlines, AllNewlines-append, AllNewlines-take, Adds, Adds-after, FileAdds, file_write-adds,
  Covered, ends_open-append, ends_open-take, append-ne,
}

-- What a call of `writeLine` adds to the file of its destination.
pub record LineAdds (line : List ℕ) (d : Line FileSink) (r : Delivered FileSink) (zs : List ℕ)
    : Type 0 where
  pub adds : Adds d.sink.content r.destination.sink.content zs line r.taken
  pub alone : 0 < r.taken → ends_open (d.sink.content ++ zs) ≡ false
  pub kept : Covered r.destination.sink r.destination.dirty
  pub done : r.failed ≡ false → r.taken ≡ length line

abbrev over_line : List ℕ → ℕ → Bool → Bool
over_line line n dirty = if ltb 0 n then not (get_or line (n - 1) 0 == 10) else dirty

take-ne : (n : ℕ) (line : List ℕ) → suc n ≤ length line → take (suc n) line ≢ []
take-ne n [] h e = absurd (omega arith)
take-ne n (c ∷ cs) h e = cc

over_line-suc :
    (line : List ℕ) (n : ℕ) (b : Bool) → over_line line (suc n) b ≡ not (get_or line n 0 == 10)
over_line-suc line n b = ground arith

or_true : (b c : Bool) → c ≡ true → (b || c) ≡ true
or_true b c h = ground arith

module _ (os : Writer) where
  repaired_eq :
      (ctx : Context) (line : List ℕ) (s : FileSink) (n : ℕ)
      → ctx.at_line ≡ false
      → (file_write os ctx.in_line line s).taken ≡ pos n
      → n ≤ length line
      → write_repaired (file_write os) ctx line false s ≡ record {
        destination = record {
          dirty = over_line line n false;
          sink = (file_write os ctx.in_line line s).sink;
        };
        taken = n;
        failed = (file_write os ctx.in_line line s).failed || not (n == length line);
      }
  unfolding write_repaired
  repaired_eq ctx line s n c e h = ground arith

  Covered-after :
      (line : List ℕ) (f : FileSink) (w : Wrote FileSink) (zs : List ℕ) (n : ℕ)
      → FileAdds line f w zs n
      → Covered f false
      → Covered w.sink (over_line line n false)
  Covered-after line f w zs zero a c = a.kept false c refl
  Covered-after line f w zs (suc n) a c = λ o. or_true w.sink.dirty (over_line line (suc n) false) (
      over_line-suc line n false
      ∙ sym (ends_open-take n line a.adds.within)
      ∙ sym (ends_open-append (f.content ++ zs) (take (suc n) line) (take-ne n line a.adds.within))
      ∙ sym (ap ends_open a.adds.added)
      ∙ o)

  -- Nothing is added, and nothing is changed.
  unchanged :
      (line : List ℕ) (d : Line FileSink)
      → Covered d.sink d.dirty
      → LineAdds line d (record { destination = d; taken = 0; failed = true }) []
  unchanged line d c = record {
    adds = record {
      newlines = tt;
      within = omega arith;
      added = sym (append-nil (d.sink.content ++ []) ∙ append-nil d.sink.content);
    };
    alone = λ h. absurd (omega arith);
    kept = c;
    done = λ e. cc;
  }

  late_eq :
      (ctx : Context) (line : List ℕ) (s : FileSink)
      → ctx.at_line ≡ true
      → write_repaired (file_write os) ctx line false s
        ≡ record { destination = record { dirty = false; sink = s }; taken = 0; failed = true }
  unfolding write_repaired
  late_eq ctx line s c = ground arith

  -- The line behind the repair, where the tail is not open or the file's sink knows it.
  write_repaired-adds :
      (ctx : Context) (line : List ℕ) (s : FileSink)
      → Covered s false
      → (zs : List ℕ) × LineAdds line
          (record { dirty = false; sink = s })
          (write_repaired (file_write os) ctx line false s)
          zs
  write_repaired-adds ctx line s c = elim (Bool-cases ctx.at_line) [
    | inl o ↦
        ([], rw (late_eq ctx line s o) (unchanged line (record { dirty = false; sink = s }) c))
    | inr on ↦
        let (zs, n, a) = file_write-adds os ctx.in_line line s in
        (
          zs,
          rw (repaired_eq ctx line s n on a.taken a.adds.within) (record {
            adds = a.adds;
            alone = a.alone c;
            kept = Covered-after line s (file_write os ctx.in_line line s) zs n a c;
            done = λ e. a.done (ground arith);
          }),
        )
  ]

  -- The three ways of a call of `writeLine`.
  over_eq :
      (ctx : Context) (line : List ℕ) (d : Line FileSink)
      → ctx.at_start ≡ true
      → write_line (file_write os) ctx line d ≡ record { destination = d; taken = 0; failed = true }
  unfolding write_line
  over_eq ctx line d h = ground arith

  straight_eq :
      (ctx : Context) (line : List ℕ) (d : Line FileSink)
      → ctx.at_start ≡ false
      → d.dirty ≡ false
      → write_line (file_write os) ctx line d ≡ write_repaired (file_write os) ctx line false d.sink
  unfolding write_line
  straight_eq ctx line d h e = ground arith

  unrepaired_eq :
      (ctx : Context) (line : List ℕ) (d : Line FileSink) (n : ℕ)
      → ctx.at_start ≡ false
      → d.dirty ≡ true
      → (file_write os ctx.in_repair newline d.sink).taken ≡ pos n
      → ((file_write os ctx.in_repair newline d.sink).failed || not (n == 1)) ≡ true
      → write_line (file_write os) ctx line d ≡ record {
        destination = record {
          dirty = true;
          sink = (file_write os ctx.in_repair newline d.sink).sink;
        };
        taken = 0;
        failed = true;
      }
  unfolding write_line
  unrepaired_eq ctx line d n h e t b = ground arith

  repairing_eq :
      (ctx : Context) (line : List ℕ) (d : Line FileSink)
      → ctx.at_start ≡ false
      → d.dirty ≡ true
      → (file_write os ctx.in_repair newline d.sink).taken ≡ pos 1
      → (file_write os ctx.in_repair newline d.sink).failed ≡ false
      → write_line (file_write os) ctx line d
        ≡ write_repaired
            (file_write os)
            ctx
            line
            false
            (file_write os ctx.in_repair newline d.sink).sink
  unfolding write_line
  repairing_eq ctx line d h e t b = ground arith

  -- A newline behind any newlines ends an open tail.
  after_newline :
      (d : Line FileSink) (w : Wrote FileSink) (zs : List ℕ)
      → w.sink.content ≡ d.sink.content ++ (zs ++ newline)
      → Covered w.sink false
  unfolding ends_open
  after_newline d w zs e = λ o. absurd (
      cc (
        e,
        o,
        ends_open-append d.sink.content (zs ++ newline) (append-ne zs newline (λ k. cc)),
        ends_open-append zs newline (λ k. cc),
      ))

  behind_newline :
      (ctx : Context) (line : List ℕ) (d : Line FileSink) (zs ys : List ℕ) (w : Wrote FileSink)
      → AllNewlines zs
      → w.sink.content ≡ d.sink.content ++ (zs ++ newline)
      → LineAdds line
          (record { dirty = false; sink = w.sink })
          (write_repaired (file_write os) ctx line false w.sink)
          ys
      → LineAdds line d
          (write_repaired (file_write os) ctx line false w.sink)
          ((zs ++ newline) ++ ys)
  behind_newline ctx line d zs ys w h e b = record {
    adds =
        Adds-after d.sink.content (zs ++ newline) e (AllNewlines-append zs newline h (refl, tt))
          b.adds;
    alone = λ lt.
        ap ends_open
          (sym (append_assoc d.sink.content (zs ++ newline) ys) ∙ sym (ap (λ c. c ++ ys) e))
        ∙ b.alone lt;
    kept = b.kept;
    done = b.done;
  }

  -- The repair.
  repairing :
      (ctx : Context) (line : List ℕ) (d : Line FileSink)
      → ctx.at_start ≡ false
      → d.dirty ≡ true
      → (zs : List ℕ) × (n : ℕ) × FileAdds newline d.sink
          (file_write os ctx.in_repair newline d.sink)
          zs
          n
      → (zs : List ℕ) × LineAdds line d (write_line (file_write os) ctx line d) zs
  repairing ctx line d on e (zs, n, a) =
      elim (Bool-cases ((file_write os ctx.in_repair newline d.sink).failed || not (n == 1))) [
        | inl t ↦ (
          zs ++ take n newline,
          rw (unrepaired_eq ctx line d n on e a.taken t) (record {
            adds = record {
              newlines =
                  AllNewlines-append zs (take n newline) a.adds.newlines (AllNewlines-take n);
              within = omega arith;
              added =
                  a.adds.added
                  ∙ append_assoc d.sink.content zs (take n newline)
                  ∙ sym (append-nil (d.sink.content ++ (zs ++ take n newline)));
            };
            alone = λ h. absurd (omega arith);
            kept = λ o. or_true _ true refl;
            done = λ e. cc;
          }),
        )
        | inr t ↦
            let one : n ≡ 1 = ground arith in
            let w = file_write os ctx.in_repair newline d.sink in
            let c : w.sink.content ≡ d.sink.content ++ (zs ++ newline) =
              (rw one at a.adds.added) ∙ append_assoc d.sink.content zs newline in
            let (ys, b) = write_repaired-adds ctx line w.sink (after_newline d w zs c) in
            (
              (zs ++ newline) ++ ys,
              rw (repairing_eq ctx line d on e (rw one at a.taken) (ground arith))
                  (behind_newline ctx line d zs ys w a.adds.newlines c b),
            )
      ]

  -- A call of `writeLine` on a destination that knows of its file's open tail adds newlines, which end
  -- it, and behind them the first bytes of the line, and still knows of an open tail.
  pub write_line-adds :
      (ctx : Context) (line : List ℕ) (d : Line FileSink)
      → Covered d.sink d.dirty
      → (zs : List ℕ) × LineAdds line d (write_line (file_write os) ctx line d) zs
  write_line-adds ctx line d c = elim (Bool-cases ctx.at_start) [
    | inl o ↦ ([], rw (over_eq ctx line d o) (unchanged line d c))
    | inr on ↦ elim (Bool-cases d.dirty) [
      | inr e ↦
          let (zs, a) = write_repaired-adds ctx line d.sink (λ o. ground (arith, c o)) in
          (
            zs,
            rw (straight_eq ctx line d on e)
                (record { adds = a.adds; alone = a.alone; kept = a.kept; done = a.done }),
          )
      | inl e ↦ repairing ctx line d on e (file_write-adds os ctx.in_repair newline d.sink)
    ]
  ]

-- ===== src/Sink/Lines/Tests.antt =====
-- The theorems on torn lines at a concrete file.
use edge_observer.Prelude.{
  ℕ, ◌≤◌, ◌≡◌, refl, Bool, true, false, not, List, [], ◌∷◌, ◌==◌, length, min, arith,
}
use edge_observer.Sink.Lines.{
  Writer, file_write, write_line, replace, there, Line, FileSink, ends_open,
}
use edge_observer.Sink.Lines.Whole.{LineAdds}
use edge_observer.Sink.Lines.Torn.{Move, writes, start, move, run, run-write_line, never_over}

-- Takes two bytes of a write to a file that holds none, and all of any other.
short_writes : List ℕ → List ℕ → ℕ × Bool
short_writes [] given = (min 2 (length given), not (min 2 (length given) == length given))
short_writes (c ∷ cs) given = (length given, false)

short_writes_within : (held given : List ℕ) → (short_writes held given).0 ≤ length given
unfolding short_writes
short_writes_within [] given = omega arith
short_writes_within (c ∷ cs) given = omega arith

short_writes_whole :
    (held given : List ℕ)
    → (short_writes held given).1 ≡ false
    → (short_writes held given).0 ≡ length given
unfolding short_writes
short_writes_whole [] given h = ground arith
short_writes_whole (c ∷ cs) given h = refl

abbrev short_once : Writer
short_once = record {
  writes = short_writes;
  within = short_writes_within;
  whole = short_writes_whole;
}

-- "{}" and a newline.
abbrev braces : List ℕ
braces = 123 ∷ 125 ∷ 10 ∷ []

abbrev torn_once : List Move
torn_once = writes never_over braces ∷ []

-- The first line is torn, and the second stands on a line of its own.
two_writes :
    (write_line
      (file_write short_once)
      never_over
      braces
      (run short_once torn_once (start (there [] false)))).destination.sink.content
    ≡ 123 ∷ 125 ∷ 10 ∷ 123 ∷ 125 ∷ 10 ∷ []
unfolding write_line file_write run move start replace ends_open short_writes
two_writes = refl

run-write_line_example :
    let d = run short_once torn_once (start (there [] false)) in
    let r = write_line (file_write short_once) never_over braces d in
    (zs : List ℕ) × LineAdds braces d r zs
run-write_line_example = run-write_line short_once (there [] false) torn_once never_over braces

-- Takes all that it is given.
abbrev takes_all : Writer
takes_all = record {
  writes = λ held given. (length given, false);
  within = λ held given. omega arith;
  whole = λ held given h. refl;
}

abbrev torn_file : Line FileSink
torn_file = record {
  dirty = true;
  sink = record { content = 123 ∷ []; opened = true; dirty = false };
}

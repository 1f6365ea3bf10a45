-- ===== src/Sink/Lines/Torn.antt =====
-- sink/final.go, sink/file.go, `reopen` of sink/queue.go: lines after any writes and reopenings.
use edge_observer.Prelude.{ℕ, false, List, [], ◌∷◌, arith}
use edge_observer.Sink.Lines.{
  Writer, ends_open, FileSink, file_write, Found, unavailable, there, replace, Context, Line,
  write_line, reopen,
}
use edge_observer.Sink.Lines.Alone.{Covered}
use edge_observer.Sink.Lines.Whole.{LineAdds, write_line-adds}

-- What happens to a destination.
pub data Move : Type 0 where
  writes : Context → List ℕ → Move
  reopens : Found → Move

-- A destination that starts on a file with these bytes: `newFile` and `register`.
abbrev no_file : FileSink
no_file = record { content = []; opened = false; dirty = false }

unfoldable pub start : Found → Line FileSink
start found = record { dirty = false; sink = (replace found no_file).0 }

module _ (os : Writer) where
  unfoldable pub move : Move → Line FileSink → Line FileSink
  move (writes ctx line) d = (write_line (file_write os) ctx line d).destination
  move (reopens found) d = reopen found d

  unfoldable pub run : List Move → Line FileSink → Line FileSink
  run [] d = d
  run (m ∷ ms) d = run ms (move m d)

  reopen-Covered :
      (found : Found) (d : Line FileSink)
      → Covered d.sink d.dirty
      → Covered (reopen found d).sink (reopen found d).dirty
  unfolding reopen
  reopen-Covered unavailable d c = c
  reopen-Covered (there content fails) d c = λ o. ground (arith, o)

  run-Covered :
      (ms : List Move) (d : Line FileSink)
      → Covered d.sink d.dirty
      → Covered (run ms d).sink (run ms d).dirty
  unfolding run move
  run-Covered [] d c = c
  run-Covered (writes ctx line ∷ ms) d c =
      run-Covered ms (move (writes ctx line) d) (write_line-adds os ctx line d c).1.kept
  run-Covered (reopens found ∷ ms) d c = run-Covered ms (reopen found d) (reopen-Covered found d c)

  start-Covered : (found : Found) → Covered (start found).sink (start found).dirty
  unfolding start replace ends_open
  start-Covered unavailable = λ o. ground (arith, o)
  start-Covered (there content fails) = λ o. ground (arith, o)

-- After any writes and reopenings, whatever the file took of each write and wherever a context was
-- over, what one more write adds to the file are newlines, then the first bytes of its line. Where
-- there are any, they do not follow an open line; and without a failure they are the whole line.
pub run-write_line :
    (os : Writer) (found : Found) (ms : List Move) (ctx : Context) (line : List ℕ)
    → let d = run os ms (start found) in
      let r = write_line (file_write os) ctx line d in (zs : List ℕ) × LineAdds line d r zs
run-write_line os found ms ctx line =
    write_line-adds os ctx line (run os ms (start found))
      (run-Covered os ms (start found) (start-Covered os found))

-- No context is over.
abbrev pub never_over : Context
never_over = record { at_start = false; in_repair = false; at_line = false; in_line = false }

-- ===== src/Sink/Lines.antt =====
-- sink/final.go (`writeLine`), sink/file.go: a destination over a file, and how it ends torn lines. The
-- file is regular and opened for appending, and its bytes are part of the state. How many bytes
-- `os.File.Write` takes, and whether it fails, is a function of the bytes that are there and of those
-- that it is given. A context is whether it is over at each moment that it is looked at.
pub mod Alone
pub mod Whole
pub mod Torn
mod Tests
use edge_observer.Prelude.{
  ℕ, zero, suc, ◌-◌, ◌≤◌, ◌≡◌, Bool, true, false, not, ◌&&◌, ◌||◌, List, [], ◌∷◌, ◌++◌, Option,
  none, some, ◌==◌, ltb, if◌then◌else◌, length, take, get_or,
}
use edge_observer.Prelude.Int.{ℤ, pos, negsuc}

-- `os.File.Write`, by its documentation: it takes no more than it is given, and fails where it takes
-- less.
pub record Writer : Type 0 where
  pub writes : List ℕ → List ℕ → ℕ × Bool
  pub within : (there given : List ℕ) → (writes there given).0 ≤ length given
  pub whole :
      (there given : List ℕ)
      → (writes there given).1 ≡ false
      → (writes there given).0 ≡ length given

-- The last byte is there and ends no line.
unfoldable pub ends_open : List ℕ → Bool
ends_open [] = false
ends_open (c ∷ []) = not (c == 10)
ends_open (c ∷ d ∷ rest) = ends_open (d ∷ rest)

abbrev pub newline : List ℕ
newline = 10 ∷ []

-- `fileSink`, and what its file holds.
pub record FileSink : Type 0 where
  pub content : List ℕ
  pub opened : Bool
  pub dirty : Bool

-- What `Write` returns: the sink, how many bytes of the line it took, and whether it failed.
pub record Wrote (S : Type 0) : Type 0 where
  pub sink : S
  pub taken : ℤ
  pub failed : Bool

module _ (os : Writer) where
  -- A call of `os.File.Write`.
  abbrev pub put : List ℕ → FileSink → FileSink
  put given f = record f { content = f.content ++ take (os.writes f.content given).0 given }

  -- The end of `fileSink.Write`: the line itself.
  unfoldable pub write_rest : List ℕ → FileSink → Wrote FileSink
  write_rest line f = record {
    sink = put line f;
    taken = pos (os.writes f.content line).0;
    failed = (os.writes f.content line).1 || not ((os.writes f.content line).0 == length line);
  }

  -- `fileSink.Write`.
  unfoldable pub file_write : Bool → List ℕ → FileSink → Wrote FileSink
  unfolding write_rest
  file_write over line f =
      if over || not f.opened
      then record { sink = f; taken = pos 0; failed = true }
      else if not f.dirty
      then write_rest line f
      else if (os.writes f.content newline).1 || not ((os.writes f.content newline).0 == 1)
      then record { sink = put newline f; taken = pos 0; failed = true }
      else write_rest line (record (put newline f) { dirty = false })

-- What `replace` finds: it fails before the file is changed, or opens a file with these bytes, and
-- closing the old one fails or does not.
pub data Found : Type 0 where
  unavailable : Found
  there : List ℕ → Bool → Found

-- `replace`, and whether it fails.
unfoldable pub replace : Found → FileSink → FileSink × Bool
replace unavailable f = (f, true)
replace (there content close_fails) f = (
  record { content = content; opened = true; dirty = ends_open content },
  f.opened && close_fails,
)

-- What a context is at each look of `writeLine` and of the writes in it.
pub record Context : Type 0 where
  pub at_start : Bool
  pub in_repair : Bool
  pub at_line : Bool
  pub in_line : Bool

-- `destination`, as far as `writeLine` reads it, over its sink.
pub record Line (S : Type 0) : Type 0 where
  pub dirty : Bool
  pub sink : S

-- What `writeLine` returns.
pub record Delivered (S : Type 0) : Type 0 where
  pub destination : Line S
  pub taken : ℕ
  pub failed : Bool

-- `n < 0 || n > len(line)`.
abbrev pub taken_of : ℤ → ℕ → Option ℕ
taken_of (pos n) bound = if ltb bound n then none else some n
taken_of (negsuc n) bound = none

module _ {S : Type 0} (write : Bool → List ℕ → S → Wrote S) where
  -- The end of `writeLine`: what the write of the line returned.
  abbrev pub line_taken : Option ℕ → Bool → List ℕ → Bool → S → Delivered S
  line_taken none failed line dirty sink = record {
    destination = record { dirty = dirty; sink = sink };
    taken = 0;
    failed = true;
  }
  line_taken (some n) failed line dirty sink = record {
    destination = record {
      dirty = if ltb 0 n then not (get_or line (n - 1) 0 == 10) else dirty;
      sink = sink;
    };
    taken = n;
    failed = failed || not (n == length line);
  }

  -- `writeLine` behind the repair.
  unfoldable pub write_repaired : Context → List ℕ → Bool → S → Delivered S
  write_repaired ctx line dirty s =
      if ctx.at_line
      then record { destination = record { dirty = dirty; sink = s }; taken = 0; failed = true }
      else line_taken (taken_of (write ctx.in_line line s).taken (length line))
          (write ctx.in_line line s).failed line dirty (write ctx.in_line line s).sink

  abbrev is_one : ℤ → Bool
  is_one (pos n) = n == 1
  is_one (negsuc n) = false

  -- `writeLine`.
  unfoldable pub write_line : Context → List ℕ → Line S → Delivered S
  unfolding write_repaired
  write_line ctx line d =
      if ctx.at_start
      then record { destination = d; taken = 0; failed = true }
      else if not d.dirty
      then write_repaired ctx line d.dirty d.sink
      else if (write ctx.in_repair newline d.sink).failed
          || not (is_one (write ctx.in_repair newline d.sink).taken)
      then record {
        destination = record d { sink = (write ctx.in_repair newline d.sink).sink };
        taken = 0;
        failed = true;
      }
      else write_repaired ctx line false (write ctx.in_repair newline d.sink).sink

-- `Reopen` of a destination over a file, at its boundary, in `reopen` of sink/queue.go.
unfoldable pub reopen : Found → Line FileSink → Line FileSink
unfolding replace
reopen found d = record {
  dirty = if (replace found d.sink).1 then d.dirty else false;
  sink = (replace found d.sink).0;
}

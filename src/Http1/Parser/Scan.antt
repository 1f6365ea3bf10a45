-- ===== src/Http1/Parser/Scan.antt =====
-- http1/parser.go, `scanLine`: the scan of a line in progress over the next bytes.
pub mod Reference
use edge_observer.Prelude.{
  ℕ, ◌+◌, ◌-◌, Bool, true, false, ◌&&◌, ◌||◌, List, [], ◌∷◌, ltb, ◌==◌, if◌then◌else◌,
}

-- `scanned`.
pub record Scanned : Type 0 where
  pub consumed : ℕ
  pub done : Bool
  pub too_long : Bool
  pub prepend_cr : Bool
  pub to : ℕ
  pub saw_cr : Bool

abbrev pub too_long_at : ℕ → Bool → Scanned
too_long_at consumed prepend_cr = record {
  consumed = consumed;
  done = false;
  too_long = true;
  prepend_cr = prepend_cr;
  to = 0;
  saw_cr = false;
}

-- The loop, from the byte at place `i` on.
unfoldable pub scan_from : ℕ → ℕ → ℕ → Bool → Bool → List ℕ → Scanned
scan_from max i size saw_cr prepend_cr [] = record {
  consumed = i;
  done = false;
  too_long = false;
  prepend_cr = prepend_cr;
  to = if saw_cr then i - 1 else i;
  saw_cr = saw_cr;
}
scan_from max i size saw_cr prepend_cr (b ∷ bs) =
    let size_now = if saw_cr then size + 1 else size in
    let prepend_now = if saw_cr then prepend_cr || i == 0 else prepend_cr in
    let held = scan_from max (i + 1) size_now true prepend_now bs in
    let longer = scan_from max (i + 1) (size_now + 1) false prepend_now bs in
    if saw_cr && b == 10
    then record {
      consumed = i + 1;
      done = true;
      too_long = false;
      prepend_cr = prepend_cr;
      to = i - 1;
      saw_cr = false;
    }
    else if saw_cr && ltb max size_now
    then too_long_at (i + 1) prepend_now
    else if b == 13
    then held
    else if ltb max (size_now + 1)
    then too_long_at (i + 1) prepend_now
    else longer

-- `scanLine`.
unfoldable pub scan_line : List ℕ → ℕ → Bool → ℕ → Scanned
unfolding scan_from
scan_line in_bytes size saw_cr max = scan_from max 0 size saw_cr false in_bytes

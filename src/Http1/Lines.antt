-- ===== src/Http1/Lines.antt =====
-- http1/http1.go, the lines of a message: start lines, field lines and chunk sizes.
pub mod Start
pub mod Fields
use edge_observer.Prelude.{
  ℕ, zero, suc, ◌+◌, ◌-◌, ◌*◌, Bool, true, false, not, ◌&&◌, ◌||◌, List, [], ◌∷◌, ◌++◌, Option,
  none, some, ltb, leb, ◌==◌, if◌then◌else◌, length, take, drop, get_elem?,
}
use edge_observer.Prelude.Bytes.{
  codes, same_bytes, all_bytes, is_tchar, index_byte, split_at, trim, is_digit, decimal_from,
}
use edge_observer.Http1.{Message, Header}

-- `isToken`.
unfoldable pub is_token : List ℕ → Bool
unfolding all_bytes
is_token [] = false
is_token (c ∷ cs) = all_bytes is_tchar (c ∷ cs)

abbrev pub is_visible : ℕ → Bool
is_visible c = not ((ltb c 32 && not (c == 9)) || c == 127)

-- `isVisibleText`.
unfoldable pub is_visible_text : List ℕ → Bool
unfolding all_bytes
is_visible_text cs = all_bytes is_visible cs

-- `isDigits`.
unfoldable pub is_digits : List ℕ → Bool
unfolding all_bytes
is_digits [] = false
is_digits (c ∷ cs) = all_bytes is_digit (c ∷ cs)

abbrev pub is_hex_digit : ℕ → Bool
is_hex_digit c = (leb 48 c && leb c 57) || (leb 97 c && leb c 102) || (leb 65 c && leb c 70)

-- `isHex`.
unfoldable pub is_hex : List ℕ → Bool
unfolding all_bytes
is_hex cs = all_bytes is_hex_digit cs

abbrev version_tail : List ℕ → Bool
version_tail (major ∷ dot ∷ minor ∷ []) = is_digit major && dot == 46 && is_digit minor
version_tail _ = false

-- `isVersion`.
unfoldable pub is_version : List ℕ → Bool
unfolding same_bytes
is_version s = same_bytes (take 5 s) (codes "HTTP/") && version_tail (drop 5 s)

abbrev pub is_empty : List ℕ → Bool
is_empty [] = true
is_empty _ = false

unfoldable pub request_of : Message → List (List ℕ) → Option Message
unfolding is_token is_visible_text is_version
request_of m (method ∷ target ∷ version ∷ []) =
    if not (is_token method)
      || is_empty target
      || not (is_visible_text target)
      || not (is_version version)
    then none
    else some (record m { method = method; target = target; protocol = version })
request_of m _ = none

-- `readRequestLine`.
unfoldable pub read_request_line : Message → List ℕ → Option Message
unfolding request_of split_at
read_request_line m line = request_of m (split_at 32 line)

-- The reason of a status line, from what follows its three digits.
unfoldable pub reason_of : List ℕ → Option (List ℕ)
reason_of [] = some []
reason_of (c ∷ cs) = if c == 32 then some cs else none

-- `readStatusLine`. Three digits are always a number.
unfoldable pub read_status_line : Message → List ℕ → Option Message
unfolding is_version is_digits reason_of is_visible_text decimal_from
read_status_line m line =
    if ltb (length line) 12
      || not (is_version (take 8 line))
      || not (same_bytes (take 1 (drop 8 line)) (32 ∷ []))
      || not (is_digits (take 3 (drop 9 line)))
    then none
    else elim (reason_of (drop 12 line)) [
      | none ↦ none
      | some reason ↦
          if not (is_visible_text reason)
          then none
          else some (record m {
            protocol = take 8 line;
            status = decimal_from 0 (take 3 (drop 9 line));
            reason = reason;
          })
    ]

-- `readHeader`.
unfoldable pub read_header : List ℕ → Option Header
unfolding index_byte is_token is_visible_text trim
read_header line = elim (index_byte line 58) [
  | none ↦ none
  | some colon ↦
      if not (is_token (take colon line)) || not (is_visible_text (trim (drop (suc colon) line)))
      then none
      else some (record { name = take colon line; value = trim (drop (suc colon) line) })
]

abbrev pub hex_digit : ℕ → ℕ
hex_digit c = if leb c 57 then c - 48 else if leb c 70 then c - 55 else c - 87

-- The value of a hexadecimal numeral, read on from `n`.
unfoldable pub hex_from : ℕ → List ℕ → ℕ
hex_from n [] = n
hex_from n (c ∷ cs) = hex_from (n * 16 + hex_digit c) cs

-- 2^63, from which `strconv.ParseUint` with a size of 63 bits refuses.
abbrev pub size_limit : ℕ
size_limit = 9_223_372_036_854_775_808

-- What stands before the first semicolon.
unfoldable pub before_semicolon : List ℕ → List ℕ
before_semicolon [] = []
before_semicolon (c ∷ cs) = let rest = before_semicolon cs in if c == 59 then [] else c ∷ rest

unfoldable pub size_of : List ℕ → Option ℕ
unfolding is_hex hex_from
size_of digits =
    if is_empty digits || ltb 16 (length digits) || not (is_hex digits)
    then none
    else if leb size_limit (hex_from 0 digits)
    then none
    else some (hex_from 0 digits)

-- `chunkSize`.
unfoldable pub chunk_size : List ℕ → Option ℕ
unfolding size_of before_semicolon
chunk_size line = size_of (before_semicolon line)

-- ===== src/Http1/Lines/Fields.antt =====
-- http1/http1.go: what the readers of field lines and chunk sizes accept.
use edge_observer.Prelude.{
  ℕ, zero, suc, ◌+◌, ◌*◌, ◌/◌, ◌%◌, ◌≤◌, ◌<◌, ◌≡◌, refl, ap, ◌∙◌, inl, inr, ◌⊎◌, ◌↔◌, ◌≢◌, true,
  false, not, List, [], ◌∷◌, ◌++◌, some, arith, ltb, ◌==◌, if◌then◌else◌, length, length-append,
  take, drop, Option-cases,
}
use edge_observer.Prelude.Bytes.{
  all_bytes, is_tchar, is_mark, index_byte, trim_left, trim_right, trim,
}
use edge_observer.Prelude.Bytes.Blanks.{
  are_blank, index_byte-split, index_byte-append, take-length-append, drop-length-append,
  trim-split, trim-append,
}
use edge_observer.Http1.{Header}
use edge_observer.Http1.Lines.{
  is_empty, is_token, is_visible_text, is_hex, read_header, is_hex_digit, hex_digit, hex_from,
  size_limit, before_semicolon, size_of, chunk_size,
}

tchar-colon : (c : ℕ) → is_tchar c ≡ true → not (c == 58) ≡ true
unfolding is_tchar is_mark
tchar-colon c h = ground arith

no_colon : (xs : List ℕ) → all_bytes is_tchar xs ≡ true → all_bytes (λ x. not (x == 58)) xs ≡ true
unfolding all_bytes
no_colon [] h = refl
no_colon (x ∷ xs) h = ground (arith, tchar-colon x, no_colon xs)

token_no_colon : (xs : List ℕ) → is_token xs ≡ true → all_bytes (λ x. not (x == 58)) xs ≡ true
unfolding is_token
token_no_colon [] h = cc
token_no_colon (x ∷ xs) h = no_colon (x ∷ xs) h

-- A text of which no byte is DEL, or below the space and not a tab. Bytes from 0x80 on, which are no
-- ASCII, may stand in it.
abbrev pub HasNoControl : List ℕ → Type 0
HasNoControl [] = Unit
HasNoControl (c ∷ cs) = ((c ≡ 9) ⊎ ((32 ≤ c) × (c ≢ 127))) × HasNoControl cs

is_visible_text-HasNoControl : (cs : List ℕ) → (is_visible_text cs ≡ true) ↔ HasNoControl cs
unfolding is_visible_text all_bytes
is_visible_text-HasNoControl [] = ground arith
is_visible_text-HasNoControl (c ∷ cs) = ground (arith, is_visible_text-HasNoControl cs)

header_at :
    (line : List ℕ) (h : Header) (i : ℕ)
    → index_byte line 58 ≡ some i
    → read_header line ≡ some h
    → (h.name ≡ take i line)
      × (h.value ≡ trim (drop (suc i) line))
      × (is_token h.name ≡ true)
      × (is_visible_text h.value ≡ true)
unfolding read_header
header_at line h i c e = ground arith

-- A field line that is accepted is a token, a colon and a text with no control byte but tabs and no
-- blank at an end, that blanks may stand around; bytes from 0x80 on are let pass. The header has that
-- token and that text.
pub read_header_sound :
    (line : List ℕ) (h : Header)
    → read_header line ≡ some h
    → (lead trail : List ℕ) × (are_blank lead ≡ true)
      × (are_blank trail ≡ true)
      × (line ≡ h.name ++ 58 ∷ (lead ++ h.value ++ trail))
      × (is_token h.name ≡ true)
      × HasNoControl h.value
      × (trim_left h.value ≡ h.value)
      × (trim_right h.value ≡ h.value)
unfolding read_header
read_header_sound line h e = elim (Option-cases (index_byte line 58)) [
  | inl c ↦ absurd (ground arith)
  | inr (i, c) ↦
      let (lead, trail, b, d, f, l, r) = trim-split (drop (suc i) line) in
      let (n, v, t, s) = header_at line h i c e in
      (
        lead,
        trail,
        b,
        d,
        index_byte-split line 58 i c ∙ rw (n, v) (ap (λ (u : List ℕ). take i line ++ 58 ∷ u) f),
        t,
        (is_visible_text-HasNoControl h.value).0 s,
        rw v l,
        rw v r,
      )
]

read_header_at :
    (line name value : List ℕ) (i : ℕ)
    → index_byte line 58 ≡ some i
    → take i line ≡ name
    → trim (drop (suc i) line) ≡ value
    → is_token name ≡ true
    → is_visible_text value ≡ true
    → read_header line ≡ some (record { name = name; value = value })
unfolding read_header
read_header_at line name value i c n v t s = ground arith

-- A line of a token, a colon and such a text, bytes from 0x80 on included, with no blank at an end of
-- the text and any blanks around it, is accepted as the header of that name and text.
pub read_header_complete :
    (name value lead trail : List ℕ)
    → is_token name ≡ true
    → HasNoControl value
    → trim_left value ≡ value
    → trim_right value ≡ value
    → are_blank lead ≡ true
    → are_blank trail ≡ true
    → read_header (name ++ 58 ∷ (lead ++ value ++ trail))
      ≡ some (record { name = name; value = value })
read_header_complete name value lead trail t v l r b d =
    read_header_at (name ++ 58 ∷ (lead ++ value ++ trail)) name value (length name)
      (index_byte-append name (lead ++ value ++ trail) 58 (token_no_colon name t))
      (take-length-append name (58 ∷ (lead ++ value ++ trail)))
      (ap trim (drop-length-append name (lead ++ value ++ trail) 58)
        ∙ trim-append lead value trail b d l r)
      t ((is_visible_text-HasNoControl value).1 v)

-- A hexadecimal numeral of a size, in as many digits as it needs and lower case.
abbrev digit_code : ℕ → ℕ
digit_code d = if ltb d 10 then 48 + d else 87 + d

unfoldable pub hex_within : ℕ → ℕ → List ℕ
hex_within zero n = []
hex_within (suc fuel) n =
    let front = hex_within fuel (n / 16) in
    if ltb n 16 then digit_code n ∷ [] else front ++ (digit_code (n % 16) ∷ [])

-- Sixteen digits are enough for a uint64.
abbrev pub hex_text : ℕ → List ℕ
unfolding hex_within
hex_text n = hex_within 16 n

hex_from-append :
    (n c : ℕ) (xs : List ℕ) → hex_from n (xs ++ (c ∷ [])) ≡ hex_from n xs * 16 + hex_digit c
unfolding hex_from
hex_from-append n c [] = refl
hex_from-append n c (x ∷ xs) = hex_from-append (n * 16 + hex_digit x) c xs

digit_lem : (d : ℕ) → d < 16 → (hex_digit (digit_code d) ≡ d) × (is_hex_digit (digit_code d) ≡ true)
digit_lem d h = ground arith

all_hex-append :
    (xs : List ℕ) (c : ℕ)
    → all_bytes is_hex_digit xs ≡ true
    → is_hex_digit c ≡ true
    → all_bytes is_hex_digit (xs ++ (c ∷ [])) ≡ true
unfolding all_bytes
all_hex-append [] c h p = ground arith
all_hex-append (x ∷ xs) c h p = ground (arith, all_hex-append xs c)

abbrev sixteens : ℕ → ℕ
sixteens zero = 1
sixteens (suc fuel) = 16 * sixteens fuel

-- Enough digits write the whole number.
hex_from-hex_within :
    (fuel n : ℕ) → n < sixteens (suc fuel) → hex_from 0 (hex_within (suc fuel) n) ≡ n
unfolding hex_from hex_within
hex_from-hex_within zero n h = ground (arith, digit_lem n)
hex_from-hex_within (suc fuel) n h = ground (
  arith,
  digit_lem n,
  digit_lem (n % 16),
  hex_from-append 0 (digit_code (n % 16)) (hex_within (suc fuel) (n / 16)),
  hex_from-hex_within fuel (n / 16),
)

hex_within_all_hex : (fuel n : ℕ) → all_bytes is_hex_digit (hex_within fuel n) ≡ true
unfolding hex_within all_bytes
hex_within_all_hex zero n = refl
hex_within_all_hex (suc fuel) n = ground (
  arith,
  digit_lem n,
  digit_lem (n % 16),
  hex_within_all_hex fuel (n / 16),
  all_hex-append (hex_within fuel (n / 16)) (digit_code (n % 16)),
)

length-hex_within : (fuel n : ℕ) → length (hex_within fuel n) ≤ fuel
unfolding hex_within
length-hex_within zero n = omega arith
length-hex_within (suc fuel) n = ground (
  arith,
  length-hex_within fuel (n / 16),
  length-append (hex_within fuel (n / 16)) (digit_code (n % 16) ∷ []),
)

before_semicolon-append :
    (xs ys : List ℕ) → all_bytes is_hex_digit xs ≡ true → before_semicolon (xs ++ 59 ∷ ys) ≡ xs
unfolding before_semicolon all_bytes
before_semicolon-append [] ys h = ground arith
before_semicolon-append (x ∷ xs) ys h = ground (arith, before_semicolon-append xs ys)

-- A chunk size that is accepted is below 2^63.
pub chunk_size-lt : (line : List ℕ) (n : ℕ) → chunk_size line ≡ some n → n < size_limit
unfolding chunk_size size_of
chunk_size-lt line n e = ground arith

hex_text-cons : (n : ℕ) → is_empty (hex_text n) ≡ false
unfolding hex_text hex_within
hex_text-cons n = ground arith

size_of_lem :
    (ds : List ℕ) (n : ℕ)
    → is_empty ds ≡ false
    → length ds ≤ 16
    → all_bytes is_hex_digit ds ≡ true
    → hex_from 0 ds ≡ n
    → n < size_limit
    → size_of ds ≡ some n
unfolding size_of is_hex
size_of_lem ds n c l a v h = ground arith

size_of-hex_text : (n : ℕ) → n < size_limit → size_of (hex_text n) ≡ some n
unfolding hex_text
size_of-hex_text n h =
    size_of_lem (hex_within 16 n) n (hex_text-cons n) (length-hex_within 16 n)
      (hex_within_all_hex 16 n) (hex_from-hex_within 15 n (omega arith)) h

-- Each size below 2^63 is read back from its numeral, whatever a semicolon begins after it.
pub chunk_size-hex_text :
    (n : ℕ) (extension : List ℕ)
    → n < size_limit
    → chunk_size (hex_text n ++ 59 ∷ extension) ≡ some n
unfolding chunk_size hex_text
chunk_size-hex_text n extension h =
    ap size_of (before_semicolon-append (hex_text n) extension (hex_within_all_hex 16 n))
    ∙ size_of-hex_text n h

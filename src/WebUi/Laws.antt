-- ===== src/WebUi/Laws.antt =====
-- What the reader of JSON strings makes of a text that the writer has escaped.
use zero_trust_public.Base.{
  ℕ, ◌+◌, ◌/◌, ◌%◌, ◌≤◌, ◌<◌, [], ◌∷◌, ◌++◌, append_assoc, Bytes, if◌then◌else◌, ltb, ◌==◌, ◌≡◌,
  ◌≢◌, refl, ap, ◌∙◌, inl, inr, arith, All, ◌⊎◌, strip_prefix, some, drop, drop-append, length,
  split_first,
}
use zero_trust_public.Interpreter.Strings.{index_of, skip_spaces}
use zero_trust_public.WebUi.{
  field_value, json_string_field, hex_digit, unescape, read_body, escape_byte, json_escape,
}

-- What comes back for a byte: a carriage return and the other control characters are not read back.
unfoldable returned_byte : ℕ → Bytes
returned_byte c =
    if c == b'\n'
    then c ∷ []
    else if c == b'\r'
    then b'r' ∷ []
    else if c == b'\t'
    then c ∷ []
    else if ltb c 32
    then b'u' ∷ b'0' ∷ b'0' ∷ hex_digit (c / 16) ∷ hex_digit (c % 16) ∷ []
    else c ∷ []

unfoldable pub returned_text : Bytes → Bytes
unfolding returned_byte
returned_text [] = []
returned_text (c ∷ s) = returned_byte c ++ returned_text s

-- A byte that stands for itself.
read_body-plain :
    (c x : ℕ) (s : Bytes) → c ≢ b'"' → c ≢ b'\\' → read_body (c ∷ x ∷ s) ≡ c ∷ read_body (x ∷ s)
unfolding read_body
read_body-plain c x s q b = ground arith

hex_digit-OutOf : (n q : ℕ) → n < 16 → q < 48 ⊎ (q ≡ b'\\') → hex_digit n ≢ q
hex_digit-OutOf n q h w = ground arith

read_body-hex :
    (n x : ℕ) (s : Bytes)
    → n < 16
    → read_body (hex_digit n ∷ x ∷ s) ≡ hex_digit n ∷ read_body (x ∷ s)
read_body-hex n x s h =
    read_body-plain (hex_digit n) x s (hex_digit-OutOf n b'"' h (inl (ground arith)))
      (hex_digit-OutOf n b'\\' h (inr refl))

-- A byte behind a backslash, taken as it is or as the break it names.
read_body-escaped : (e : ℕ) (s : Bytes) → read_body (b'\\' ∷ e ∷ s) ≡ unescape e ∷ read_body s
unfolding read_body
read_body-escaped e s = refl

-- The control characters without a short escape: the reader takes the `u` as it is.
read_body-control :
    (c x : ℕ) (s : Bytes)
    → c < 32
    → read_body (b'\\' ∷ b'u' ∷ b'0' ∷ b'0' ∷ hex_digit (c / 16) ∷ hex_digit (c % 16) ∷ x ∷ s)
      ≡ b'u' ∷ b'0' ∷ b'0' ∷ hex_digit (c / 16) ∷ hex_digit (c % 16) ∷ read_body (x ∷ s)
unfolding read_body unescape
read_body-control c x s h =
    let high = read_body-hex (c / 16) (hex_digit (c % 16)) (x ∷ s) (ground arith) in
    let low = read_body-hex (c % 16) x s (ground arith) in
    ap (λ r. b'u' ∷ b'0' ∷ b'0' ∷ r) (high ∙ ap (λ r. hex_digit (c / 16) ∷ r) low)

read_body-escape_byte :
    (c x : ℕ) (s : Bytes)
    → read_body (escape_byte c ++ (x ∷ s)) ≡ returned_byte c ++ read_body (x ∷ s)
unfolding read_body escape_byte returned_byte unescape
read_body-escape_byte c x s =
    let control = read_body-control c x s in let plain = read_body-plain c x s in ground arith

read_body-escape_byte_before :
    (c : ℕ) (a : Bytes) (x : ℕ) (b : Bytes)
    → read_body (escape_byte c ++ (a ++ (x ∷ b))) ≡ returned_byte c ++ read_body (a ++ (x ∷ b))
read_body-escape_byte_before c [] x b = read_body-escape_byte c x b
read_body-escape_byte_before c (y ∷ a) x b = read_body-escape_byte c y (a ++ (x ∷ b))

-- The text behind the closing quote plays no part.
read_body-json_escape :
    (s rest : Bytes) → read_body (json_escape s ++ (b'"' ∷ rest)) ≡ returned_text s
unfolding read_body json_escape returned_text
read_body-json_escape [] [] = refl
read_body-json_escape [] (x ∷ rest) = refl
read_body-json_escape (c ∷ s) rest =
    ap read_body (append_assoc (escape_byte c) (json_escape s) (b'"' ∷ rest))
    ∙ read_body-escape_byte_before c (json_escape s) b'"' rest
    ∙ ap (λ r. returned_byte c ++ r) (read_body-json_escape s rest)

-- A byte that the reader gives back: a line break, a tab, or no control character.
abbrev Readable : ℕ → Type 0
Readable c = (c ≡ b'\n') ⊎ (c ≡ b'\t') ⊎ (32 ≤ c)

returned_byte-Readable : (c : ℕ) → Readable c → returned_byte c ≡ c ∷ []
unfolding returned_byte
returned_byte-Readable c r = ground arith

returned_text-Readable : (s : Bytes) → All Readable s → returned_text s ≡ s
unfolding returned_text
returned_text-Readable [] h = refl
returned_text-Readable (c ∷ s) (r, h) =
    rw (returned_byte-Readable c r, returned_text-Readable s h) refl

zero_add : (n : ℕ) → 0 + n ≡ n
zero_add n = omega arith

strip_prefix-append : (p s : Bytes) → strip_prefix p (p ++ s) ≡ some s
unfolding strip_prefix
strip_prefix-append [] s = refl
strip_prefix-append (x ∷ p) s = rw (strip_prefix-append p s) ground arith

index_of-append : (x : ℕ) (p s : Bytes) → index_of (x ∷ p) ((x ∷ p) ++ s) ≡ some 0
unfolding index_of
index_of-append x p s = rw (index_of, strip_prefix-append (x ∷ p) s) refl

-- A key in quotes.
abbrev pub quoted : Bytes → Bytes
quoted key = b'"' ∷ (key ++ (b'"' ∷ []))

field_value-quoted :
    (key value : Bytes)
    → field_value (quoted key ++ (b':' ∷ b'"' ∷ value)) key ≡ some (b'"' ∷ value)
unfolding field_value split_first skip_spaces
field_value-quoted key value =
    let tail = b':' ∷ b'"' ∷ value in
    let behind : drop (0 + length (quoted key)) (quoted key ++ tail) ≡ tail =
      ap (λ n. drop n (quoted key ++ tail)) (zero_add (length (quoted key)))
      ∙ drop-append (quoted key) tail in
    rw (field_value, index_of-append b'"' (key ++ (b'"' ∷ [])) tail, behind) refl

-- What json_string_field reads for a key, where the text begins with the key in quotes, a colon and a
-- value that json_escape has written between quotes: the value itself, but that a carriage return
-- comes back as the letter r, and a control character without a short escape as the letter u with four
-- digits behind it. Nothing behind the closing quote plays a part, so no value ends its own quotation.
pub json_string_field-json_escape :
    (key s rest : Bytes)
    → json_string_field (quoted key ++ (b':' ∷ b'"' ∷ (json_escape s ++ (b'"' ∷ rest)))) key
      ≡ returned_text s
unfolding json_string_field
json_string_field-json_escape key s rest =
    rw (json_string_field, field_value-quoted key (json_escape s ++ (b'"' ∷ rest)))
      (read_body-json_escape s rest)

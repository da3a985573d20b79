-- ===== src/Witness/Web.antt =====
-- The theorem on the JSON strings of the web interface at a concrete input.
use zero_trust_public.Base.{Bytes, [], ◌∷◌, ◌++◌, codes, ◌≡◌}
use zero_trust_public.WebUi.{json_escape, json_string_field}
use zero_trust_public.WebUi.Laws.{quoted, returned_text, json_string_field-json_escape}

-- A quotation mark, a line break, a carriage return and a bell.
abbrev value : Bytes
value = b'a' ∷ b'"' ∷ b'\n' ∷ b'\r' ∷ 7 ∷ []

json_string_field-json_escape_example :
    json_string_field
      (quoted (codes "target") ++ (b':' ∷ b'"' ∷ (json_escape value ++ (b'"' ∷ codes ",\"x\":1}"))))
      (codes "target")
    ≡ b'a' ∷ b'"' ∷ b'\n' ∷ b'r' ∷ b'u' ∷ b'0' ∷ b'0' ∷ b'0' ∷ b'7' ∷ []
unfolding returned_text
json_string_field-json_escape_example =
    json_string_field-json_escape (codes "target") value (codes ",\"x\":1}")

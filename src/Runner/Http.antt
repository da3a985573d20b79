-- ===== src/Runner/Http.antt =====
-- src/ztl/runner.cpp: parse_http_response, and what the methods of a response give. `std::stoi` is an
-- argument, with the numbers that it gives.
use zero_trust_public.Base.{
  ◌+◌, List, [], ◌∷◌, ◌++◌, map, Bytes, codes, bytes_eq, lower, split_first, split_by, is_empty,
  if◌then◌else◌, Option, none, some, ◌==◌, drop, take,
}
use zero_trust_public.Interpreter.Strings.{index_of, trim}

pub record RawHttpResponse (N : Type 0) : Type 0 where
  pub status : N
  status_line : Bytes
  headers : List (Bytes × Bytes)
  pub body : Bytes
  pub raw : Bytes

-- The head and the body: the head is everything where the empty line is missing.
unfoldable head_and_body : Bytes → Bytes × Bytes
unfolding index_of
head_and_body raw = elim (index_of (codes "\r\n\r\n") raw) [
  | none ↦ (raw, [])
  | some i ↦ (take i raw, drop (i + 4) raw)
]

-- `if (!line.empty() && line.back() == '\r') line.pop_back()`
unfoldable without_return : Bytes → Bytes
without_return [] = []
without_return (c ∷ []) = if c == b'\r' then [] else c ∷ []
without_return (c ∷ d ∷ line) = c ∷ without_return (d ∷ line)

-- The text between the first two spaces, or behind the only one.
unfoldable code_of : Bytes → Option Bytes
unfolding split_first
code_of line = elim (split_first b' ' line) [
  | none ↦ none
  | some (_, rest) ↦ some (elim (split_first b' ' rest) [ none ↦ rest | some (code, _) ↦ code ])
]

-- The loop over the lines behind the first; it ends at an empty line.
unfoldable headers_loop : List Bytes → List (Bytes × Bytes)
unfolding without_return split_first trim
headers_loop [] = []
headers_loop (line ∷ lines) =
    let later = headers_loop lines in
    if is_empty (without_return line) then [] else elim (split_first b':' (without_return line)) [
      | none ↦ later
      | some (k, v) ↦ (trim k, trim v) ∷ later
    ]

abbrev first_line : List Bytes → Bytes
first_line [] = []
first_line (line ∷ _) = line

abbrev later_lines : List Bytes → List Bytes
later_lines [] = []
later_lines (_ ∷ lines) = lines

module _ {N : Type 0} (zero_status : N) (stoi : Bytes → Option N) where
  unfoldable status_of : Bytes → N
  unfolding code_of
  status_of line = elim (code_of line) [
    | none ↦ zero_status
    | some code ↦ elim (stoi code) [ none ↦ zero_status | some n ↦ n ]
  ]

  unfoldable parse_http_response : Bytes → RawHttpResponse N
  unfolding head_and_body without_return status_of headers_loop split_by
  parse_http_response raw =
      let parts = head_and_body raw in
      let lines = split_by b'\n' parts.0 in
      record {
        status = status_of (without_return (first_line lines));
        status_line = without_return (first_line lines);
        headers = headers_loop (later_lines lines);
        body = parts.1;
        raw = raw;
      }

-- `HttpResponse.headers`
unfoldable headers_text : List (Bytes × Bytes) → Bytes
headers_text [] = []
headers_text ((k, v) ∷ headers) = (k ++ (codes ": " ++ (v ++ codes "\n"))) ++ headers_text headers

-- `HttpResponse.header`: the value of the first header of that name in any case.
unfoldable header_named : Bytes → List (Bytes × Bytes) → Option Bytes
header_named name [] = none
header_named name ((k, v) ∷ headers) =
    let later = header_named name headers in
    if bytes_eq (map lower k) (map lower name) then some v else later

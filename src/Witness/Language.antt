-- ===== src/Witness/Language.antt =====
-- The theorems on the script language at concrete inputs.
use zero_trust_public.Base.{
  ℕ, ◌≡◌, refl, true, List, [], ◌∷◌, Bytes, codes, Option, some, Ensures, is_digit, is_alpha,
  is_empty, length,
}
use zero_trust_public.Lexer.{number, semicolon, end_of_file, Token, make, advance, take_while}
use zero_trust_public.Lexer.Literals.{read_number, fraction}
use zero_trust_public.Lexer.Scan.{
  tokenize, tokenize_loop, skip_ws_and_comments, skip_loop, skip_round, token_step, next_token,
  single, punctuation,
}
use zero_trust_public.Lexer.Total.{IsTerminated, tokenize-IsTerminated}
use zero_trust_public.Parser.{Parser, check}
use zero_trust_public.Parser.Statements.{parse_program}
use zero_trust_public.Parser.Total.{tokenize-parse_program}

-- `std::stod`, of which the parser only passes the value on.
abbrev digits_read : Bytes → Option ℕ
digits_read s = some (length s)

abbrev one : Token
one = make number (codes "1") 1 1

abbrev following_one : List Token
following_one = make semicolon (codes ";") 1 2 ∷ make end_of_file [] 1 3 ∷ []

tokenize-IsTerminated_example : Ensures IsTerminated (tokenize (codes "a = b.c(1) # set"))
tokenize-IsTerminated_example = tokenize-IsTerminated (codes "a = b.c(1) # set")

abbrev at_one : Parser
at_one = record { current = one; following = following_one }

tokenize-parse_program_example :
    Ensures (λ r. check end_of_file r.1 ≡ true) (parse_program digits_read at_one)
unfolding tokenize tokenize_loop skip_ws_and_comments skip_loop skip_round token_step next_token
    read_number fraction take_while advance single punctuation is_digit is_alpha is_empty
tokenize-parse_program_example =
    tokenize-parse_program digits_read (codes "1;") one following_one refl

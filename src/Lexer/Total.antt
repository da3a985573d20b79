-- ===== src/Lexer/Total.antt =====
-- The lexer ends on every text, and its tokens end with END_OF_FILE, which stands nowhere else.
use zero_trust_public.Base.{
  ℕ, zero, suc, ◌≤◌, ◌<◌, ◌≡◌, ◌≢◌, refl, ap, true, ◌||◌, List, [], ◌∷◌, ◌++◌, Bytes, codes,
  is_digit, is_alpha, is_alnum, is_empty, is_empty_pos, Option, none, some, ◌==◌, length, Outcome,
  Ensures, holds, raised, Ensures-bind, Ensures-if, All, All-append, arith, Bool-cases, inl, inr,
}
use zero_trust_public.Lexer.{
  TokenType, end_of_file, Token, LexError, Cursor, at, peek, advance, take_while,
}
use zero_trust_public.Lexer.Literals.{
  StringRound, closed, more, failed, hex, hex_byte, hex_round, escape_round, string_round_in,
  string_round, string_after, string_loop, read_string, fraction, read_number, is_ident_byte,
  keyword, read_ident_or_keyword,
}
use zero_trust_public.Lexer.Scan.{
  skip_ws_and_comments, single, paired, alone, pair_token, punctuation, lex_error, token_step,
  next_token, tokenize_loop, tokenize,
}
use zero_trust_public.Lexer.Progress.{
  size, advance-le, advance_lt, take_while-le, take_while_lt, skip_loop-Ensures,
}

-- What a round of `read_string` leaves.
abbrev RoundOk : Cursor → StringRound → Type 0
RoundOk cur closed = 0 < size cur
RoundOk cur (more cur' out) = size cur' < size cur
RoundOk cur (failed e) = Unit

hex_round-RoundOk :
    (sl sk : ℕ) (cs : Bytes) (start cur : Cursor) (out : Bytes)
    → size cur < size start
    → RoundOk start (hex_round sl sk cs cur out)
unfolding hex_round
hex_round-RoundOk sl sk [] start cur out h = tt
hex_round-RoundOk sl sk (x ∷ []) start cur out h = tt
hex_round-RoundOk sl sk (x ∷ y ∷ cs) start cur out h = both (hex_byte (hex x) (hex y))
  where
    both :
        (o : Option ℕ)
        → RoundOk start (elim o [
          | none ↦ failed (record { message = codes "bad \\xHH digits"; line = sl; col = sk })
          | some b ↦ more (advance (advance cur)) (out ++ b ∷ [])
        ])
    both none = tt
    both (some b) = omega (arith, advance-le (advance cur), advance-le cur)

string_round-RoundOk :
    (sl sk : ℕ) (cur : Cursor) (out : Bytes) → RoundOk cur (string_round sl sk cur out)
unfolding string_round
string_round-RoundOk sl sk cur out = within_bytes cur.rest refl
  where
    behind :
        (c : ℕ) (cs : Bytes)
        → 0 < size cur
        → RoundOk cur (escape_round sl sk c cs (advance cur) out)
    behind c [] h = advance_lt cur h
    behind c (e ∷ cs) h = elim (Bool-cases (c == b'\\')) [
      | inr p ↦ rw p (advance_lt cur h)
      | inl p ↦ elim (Bool-cases (e == b'x')) [
        | inl q ↦
            rw (p, q)
              (hex_round-RoundOk sl sk cs cur (advance (advance cur)) out
                (omega (arith, advance-le (advance cur), advance_lt cur h)))
        | inr q ↦ rw (p, q) (omega (arith, advance-le (advance cur), advance_lt cur h))
      ]
    ]

    within_bytes : (s : Bytes) → cur.rest ≡ s → RoundOk cur (string_round_in sl sk s cur out)
    within_bytes [] q = tt
    within_bytes (c ∷ cs) q = elim (Bool-cases (c == b'"')) [
      | inl p ↦ rw p (omega (arith, ap length q))
      | inr p ↦ rw p (behind c cs (omega (arith, ap length q)))
    ]

-- A token that is not END_OF_FILE, and less text than before.
abbrev Advances : ℕ → Token × Cursor → Type 0
Advances n r = (size r.1 < n) × (r.0.type ≢ end_of_file)

string_after-Ensures :
    (sl sk : ℕ) (loop : Cursor → Bytes → Outcome LexError (Token × Cursor)) (cur : Cursor)
    (out : Bytes) (n : ℕ) (r : StringRound)
    → RoundOk cur r
    → size cur ≤ n
    → ((cur' : Cursor) (out' : Bytes)
        → size cur' < size cur
        → Ensures (Advances n) (loop cur' out'))
    → Ensures (Advances n) (string_after sl sk loop cur out r)
unfolding string_after
string_after-Ensures sl sk loop cur out n closed g h k = holds (omega (arith, advance_lt cur g), cc)
string_after-Ensures sl sk loop cur out n (more cur' out') g h k = k cur' out' g
string_after-Ensures sl sk loop cur out n (failed e) g h k = raised

string_loop-Ensures :
    (f sl sk n : ℕ) (cur : Cursor) (out : Bytes)
    → size cur < f
    → size cur ≤ n
    → Ensures (Advances n) (string_loop f sl sk cur out)
unfolding string_loop
string_loop-Ensures zero sl sk n cur out h k = absurd (omega arith)
string_loop-Ensures (suc f) sl sk n cur out h k =
    string_after-Ensures sl sk (string_loop f sl sk) cur out n (string_round sl sk cur out)
      (string_round-RoundOk sl sk cur out) k
      (λ cur' out' p. string_loop-Ensures f sl sk n cur' out' (omega arith) (omega arith))

read_string-Ensures :
    (cur : Cursor) → 0 < size cur → Ensures (Advances (size cur)) (read_string cur)
unfolding read_string
read_string-Ensures cur h =
    string_loop-Ensures (length cur.rest) cur.line cur.col (size cur) (advance cur) []
      (advance_lt cur h) (advance-le cur)

fraction-le : (out : Bytes) (cur : Cursor) → size (fraction out cur).1 ≤ size cur
unfolding fraction
fraction-le out cur = ground (
  arith,
  advance-le cur,
  take_while-le is_digit (advance cur).rest (advance cur).line (advance cur).col,
)

read_number-Advances :
    (cur : Cursor)
    → 0 < size cur
    → is_digit (peek cur.rest) ≡ true
    → Advances (size cur) (read_number cur)
unfolding read_number
read_number-Advances cur h d = (
  omega (
    arith,
    take_while_lt is_digit cur.rest cur.line cur.col h d,
    fraction-le (take_while is_digit cur.rest cur.line cur.col).0
        (take_while is_digit cur.rest cur.line cur.col).1,
  ),
  cc,
)

keyword-ne : (s : Bytes) → keyword s ≢ end_of_file
unfolding keyword
keyword-ne s = ground arith

read_ident-Advances :
    (cur : Cursor)
    → 0 < size cur
    → is_ident_byte (peek cur.rest) ≡ true
    → Advances (size cur) (read_ident_or_keyword cur)
unfolding read_ident_or_keyword
read_ident-Advances cur h d =
    (take_while_lt is_ident_byte cur.rest cur.line cur.col h d, keyword-ne _)

single-ne : (c : ℕ) (t : TokenType) → single c ≡ some t → t ≢ end_of_file
unfolding single
single-ne c t h = ground arith

-- Neither type of a pair is END_OF_FILE.
abbrev PairNe : Option (ℕ × TokenType × Option TokenType) → Type 0
PairNe none = Unit
PairNe (some (d, both, none)) = both ≢ end_of_file
PairNe (some (d, both, some one)) = (both ≢ end_of_file) × (one ≢ end_of_file)

paired-PairNe : (c : ℕ) → PairNe (paired c)
unfolding paired
paired-PairNe c = ground arith

alone-Ensures :
    (c d n : ℕ) (cur : Cursor) (both : TokenType) (o : Option TokenType)
    → PairNe (some (d, both, o))
    → size (advance cur) < n
    → Ensures (Advances n) (alone c cur o)
unfolding alone lex_error
alone-Ensures c d n cur both none h k = raised
alone-Ensures c d n cur both (some t) h k = holds (k, h.1)

pair_both :
    (d : ℕ) (both : TokenType) (o : Option TokenType)
    → PairNe (some (d, both, o))
    → both ≢ end_of_file
pair_both d both none h = h
pair_both d both (some t) h = h.0

pair_token-Ensures :
    (c n : ℕ) (cur : Cursor) (o : Option (ℕ × TokenType × Option TokenType))
    → PairNe o
    → size (advance cur) < n
    → Ensures (Advances n) (pair_token c cur o)
unfolding pair_token lex_error
pair_token-Ensures c n cur none h k = raised
pair_token-Ensures c n cur (some (d, both, one)) h k =
    Ensures-if (peek (advance cur).rest == d)
      (λ e. holds (omega (arith, advance-le (advance cur)), pair_both d both one h))
      (λ e. alone-Ensures c d n cur both one h k)

punctuation-Ensures :
    (c n : ℕ) (cur : Cursor) (o : Option TokenType)
    → ((t : TokenType) → o ≡ some t → t ≢ end_of_file)
    → size (advance cur) < n
    → Ensures (Advances n) (punctuation c cur o)
unfolding punctuation
punctuation-Ensures c n cur none h k = pair_token-Ensures c n cur (paired c) (paired-PairNe c) k
punctuation-Ensures c n cur (some t) h k = holds (k, h t refl)

-- Where a byte is left, the next token is an error, or takes text and is not END_OF_FILE.
next_token-Ensures : (cur : Cursor) → 0 < size cur → Ensures (Advances (size cur)) (next_token cur)
unfolding next_token
next_token-Ensures cur h =
    Ensures-if (peek cur.rest == b'"') (λ e. read_string-Ensures cur h)
      (λ e.
        Ensures-if (is_digit (peek cur.rest)) (λ d. holds (read_number-Advances cur h d))
          (λ e'.
            Ensures-if (is_alpha (peek cur.rest) || peek cur.rest == b'_')
              (λ a.
                holds (read_ident-Advances cur h (unfold is_ident_byte is_alnum in ground arith)))
              (λ e''.
                punctuation-Ensures (peek cur.rest) (size cur) cur (single (peek cur.rest))
                  (single-ne (peek cur.rest)) (advance_lt cur h))))

-- END_OF_FILE stands at the end of the tokens, and nowhere else.
abbrev pub IsTerminated : List Token → Type 0
IsTerminated [] = ⊥
IsTerminated (t ∷ []) = t.type ≡ end_of_file
IsTerminated (t ∷ u ∷ ts) = (t.type ≢ end_of_file) × IsTerminated (u ∷ ts)

IsTerminated-concat :
    (ts : List Token) (last : Token)
    → All (λ t. t.type ≢ end_of_file) ts
    → last.type ≡ end_of_file
    → IsTerminated (ts ++ last ∷ [])
IsTerminated-concat [] last h e = e
IsTerminated-concat (t ∷ []) last h e = (h.0, e)
IsTerminated-concat (t ∷ u ∷ ts) last h e = (h.0, IsTerminated-concat (u ∷ ts) last h.1 e)

tokenize_loop-Ensures :
    (f : ℕ) (cur : Cursor) (ts : List Token)
    → size cur < f
    → All (λ t. t.type ≢ end_of_file) ts
    → Ensures IsTerminated (tokenize_loop f cur ts)
unfolding tokenize_loop skip_ws_and_comments token_step
tokenize_loop-Ensures zero cur ts h k = absurd (omega arith)
tokenize_loop-Ensures (suc f) cur ts h k =
    Ensures-bind (skip_loop-Ensures (suc (length cur.rest)) cur (omega arith)) λ c le.
      Ensures-if (is_empty c.rest) (λ e. holds (IsTerminated-concat ts _ k refl))
        (λ e. Ensures-bind (next_token-Ensures c (is_empty_pos c.rest e)) λ (t, c') adv.
          tokenize_loop-Ensures f c' (ts ++ t ∷ []) (omega arith)
            (All-append (λ t. t.type ≢ end_of_file) ts (t ∷ []) k (adv.1, tt)))

-- The lexer ends on every text: with an error, or with tokens of which the last is END_OF_FILE and
-- no other is.
pub tokenize-IsTerminated : (src : Bytes) → Ensures IsTerminated (tokenize src)
unfolding tokenize
tokenize-IsTerminated src =
    tokenize_loop-Ensures (suc (length src)) (at src 1 1) [] (omega arith) tt

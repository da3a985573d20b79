-- ===== src/Parser/Taking.antt =====
-- What it means for a parsing function to take tokens, and the loops over operators: each round
-- takes a token, and END_OF_FILE is never passed.
use zero_trust_public.Base.{
  ℕ, zero, suc, ◌≤◌, ◌<◌, ◌≡◌, ◌≢◌, refl, ap, Bool, true, false, ◌&&◌, ◌||◌, List, [], ◌∷◌, Bytes,
  Outcome, length, arith, &&_left, &&_right, Ensures, holds, raised, Ensures-bind, Ensures-if,
  Ensures-mono,
}
use zero_trust_public.Lexer.{TokenType, bang, minus, end_of_file, Token}
use zero_trust_public.Lexer.Total.{IsTerminated}
use zero_trust_public.Parser.{
  Expr, index_of, same_type, Parser, ParseError, Parses, peek_1, peek_behind, move_on, advance,
  check, expect,
}
use zero_trust_public.Parser.Expressions.{tokens_left, unary_loop, left_loop, binary_level}

-- The tokens that are left end with END_OF_FILE, which stands nowhere else among them.
abbrev pub Ends : Parser → Type 0
Ends p = IsTerminated (p.current ∷ p.following)

-- A token type that is not END_OF_FILE.
abbrev IsReal : TokenType → Type 0
IsReal end_of_file = ⊥
IsReal _ = Unit

index_of_real : (t : TokenType) → IsReal t → index_of t < 33
unfolding index_of
index_of_real end_of_file h = absurd h
index_of_real _ h = omega arith

-- The parser has fewer tokens left than `n`, and they still end.
abbrev pub Left : ℕ → Parser → Type 0
Left n p = (tokens_left p < n) × Ends p

move_on-Left :
    (t : Token) (ts : List Token)
    → t.type ≢ end_of_file
    → IsTerminated (t ∷ ts)
    → Left (suc (length ts)) (move_on t ts)
unfolding move_on
move_on-Left t [] h e = absurd (h e)
move_on-Left t (u ∷ ts) h e = (omega arith, e.1)

not_end : (s t : TokenType) → IsReal t → same_type s t ≡ true → s ≢ end_of_file
unfolding same_type index_of
not_end s t h e q = absurd (ground (arith, ap index_of q, index_of_real t h))

-- A token that was checked to be of a real type can be taken.
pub advance-Left :
    (t : TokenType) (p : Parser)
    → IsReal t
    → Ends p
    → check t p ≡ true
    → Left (tokens_left p) (advance p)
unfolding advance check
advance-Left t p h e c = move_on-Left p.current p.following (not_end p.current.type t h c) e

peek_behind-move_on : (t : Token) (ts : List Token) → peek_behind t ts ≡ (move_on t ts).current
unfolding peek_behind move_on
peek_behind-move_on t [] = refl
peek_behind-move_on t (u ∷ ts) = refl

-- Two tokens that were checked by looking ahead can be taken.
pub advance_twice :
    (t u : TokenType) (p : Parser)
    → IsReal t
    → IsReal u
    → Ends p
    → (check t p && same_type (peek_1 p).type u) ≡ true
    → Left (tokens_left p) (advance (advance p))
unfolding peek_1 advance check
advance_twice t u p h k e c =
    let first = advance-Left t p h e (&&_left (check t p) (same_type (peek_1 p).type u) c) in
    let ahead = &&_right (check t p) (same_type (peek_1 p).type u) c in
    let second =
      advance-Left u (advance p) k first.1
        (rw (← peek_behind-move_on p.current p.following) ahead) in
    (omega arith, second.1)

-- A parsing function with fuel for fewer than `n` tokens: it fails, or takes a token or more.
abbrev pub Takes : {A : Type 0} → ℕ → Parses A → Type 0
Takes n q = (p : Parser) → Left n p → Ensures (λ r. Left (tokens_left p) r.1) (q p)

-- The same of one run, against a bound on what is left behind it.
abbrev pub Leaves : {A : Type 0} → ℕ → Outcome ParseError (A × Parser) → Type 0
Leaves n o = Ensures (λ r. Left n r.1) o

pub Leaves-mono :
    {A : Type 0} (n m : ℕ) (o : Outcome ParseError (A × Parser)) → n ≤ m → Leaves n o → Leaves m o
Leaves-mono n m o h l = Ensures-mono l (λ r k. (omega arith, k.1))

pub expect-Leaves :
    (t : TokenType) (what : Bytes) (p : Parser)
    → IsReal t
    → Ends p
    → Leaves (tokens_left p) (expect t what p)
unfolding expect
expect-Leaves t what p h e =
    Ensures-if (check t p) (λ c. holds (advance-Left t p h e c)) (λ c. raised)

-- A test that is one of two, each of which allows a conclusion.
or_elim : {P : Type 0} (b c : Bool) → (b ≡ true → P) → (c ≡ true → P) → (b || c) ≡ true → P
or_elim true c h k e = h refl
or_elim false c h k e = k e

and_elim : {P : Type 0} (b c : Bool) → (b ≡ true → P) → (b && c) ≡ true → P
and_elim true c h e = h refl
and_elim false c h e = cc

-- An operator test that holds only at tokens that can be taken.
abbrev pub TestsReal : (Parser → Bool) → Type 0
TestsReal test = (p : Parser) → Ends p → test p ≡ true → Left (tokens_left p) (advance p)

pub check-TestsReal : (t : TokenType) → IsReal t → TestsReal (check t)
check-TestsReal t h p e c = advance-Left t p h e c

pub or-TestsReal : (a b : Parser → Bool) → TestsReal a → TestsReal b → TestsReal (λ p. a p || b p)
or-TestsReal a b h k p e c = or_elim (a p) (b p) (h p e) (k p e) c

module _ {D : Type 0} (n : ℕ) where
  left_loop-Leaves :
      (test : Parser → Bool) (operand : Parses (Expr D))
      → TestsReal test
      → Takes n operand
      → (f m : ℕ) (lhs : Expr D) (p : Parser) → tokens_left p < f
      → tokens_left p < m
      → Left n p
      → Leaves m (left_loop test operand f lhs p)
  unfolding left_loop
  left_loop-Leaves test operand ts h zero m lhs p k l e = absurd (omega arith)
  left_loop-Leaves test operand ts h (suc f) m lhs p k l e =
      Ensures-if (test p)
        (λ c.
          let taken = ts p e.1 c in
          Ensures-bind (h (advance p) (omega arith, taken.1)) λ (rhs, q) s.
            left_loop-Leaves test operand ts h f m _ q (omega arith) (omega arith)
              (omega arith, s.1))
        (λ c. holds (l, e.1))

  pub binary_level-Takes :
      (test : Parser → Bool) (operand : Parses (Expr D))
      → TestsReal test
      → Takes n operand
      → Takes n (binary_level test operand)
  unfolding binary_level
  binary_level-Takes test operand ts h p e = Ensures-bind (h p e) λ (lhs, q) s.
      left_loop-Leaves test operand ts h (suc (tokens_left q)) (tokens_left p) lhs q (omega arith)
        s.0 (omega arith, s.1)

  pub unary_loop-Leaves :
      (postfix : Parses (Expr D))
      → Takes n postfix
      → (f : ℕ) (p : Parser) → tokens_left p < f
      → Left n p
      → Leaves (tokens_left p) (unary_loop postfix f p)
  unfolding unary_loop
  unary_loop-Leaves postfix h zero p k e = absurd (omega arith)
  unary_loop-Leaves postfix h (suc f) p k e =
      Ensures-if (check bang p || check minus p)
        (λ c.
          let taken =
            or-TestsReal (check bang) (check minus) (check-TestsReal bang tt)
              (check-TestsReal minus tt) p e.1 c in
          Ensures-bind
            (unary_loop-Leaves postfix h f (advance p) (omega arith) (omega arith, taken.1))
            λ (x, q) s. holds (omega arith, s.1))
        (λ c. h p e)

-- ===== src/Lexer/Progress.antt =====
-- The loops of the lexer bring the cursor nearer to the end of the text: single steps, and
-- skip_ws_and_comments.
use zero_trust_public.Base.{
  ℕ, zero, suc, ◌+◌, ◌≤◌, ◌<◌, ◌≡◌, refl, ap, Bool, true, false, ◌&&◌, [], ◌∷◌, Bytes, Option, none,
  some, ◌==◌, length, Outcome, Ensures, holds, Ensures-mono, arith, Bool-cases, inl, inr,
}
use zero_trust_public.Lexer.{
  LexError, Cursor, at, peek, line_after, col_after, step_in, advance, take_while,
}
use zero_trust_public.Lexer.Scan.{
  skip_line, skip_block, skip_round_in, skip_round, skip_after, skip_loop,
}

abbrev pub size : Cursor → ℕ
size cur = length cur.rest

step_in-size : (s : Bytes) (l k : ℕ) → size (step_in s l k) + 1 ≤ length s + 1
unfolding step_in
step_in-size [] l k = omega arith
step_in-size (c ∷ s) l k = omega arith

pub advance-le : (cur : Cursor) → size (advance cur) ≤ size cur
unfolding advance
advance-le cur = omega (arith, step_in-size cur.rest cur.line cur.col)

step_in_lt : (s : Bytes) (l k : ℕ) → 0 < length s → size (step_in s l k) < length s
unfolding step_in
step_in_lt [] l k h = absurd (omega arith)
step_in_lt (c ∷ s) l k h = omega arith

pub advance_lt : (cur : Cursor) → 0 < size cur → size (advance cur) < size cur
unfolding advance
advance_lt cur = step_in_lt cur.rest cur.line cur.col

pub take_while-le :
    (test : ℕ → Bool) (s : Bytes) (l k : ℕ) → size (take_while test s l k).1 ≤ length s
unfolding take_while
take_while-le test [] l k = omega arith
take_while-le test (c ∷ cs) l k =
    ground (arith, take_while-le test cs (line_after c l) (col_after c k))

pub take_while_lt :
    (test : ℕ → Bool) (s : Bytes) (l k : ℕ)
    → 0 < length s
    → test (peek s) ≡ true
    → size (take_while test s l k).1 < length s
unfolding take_while
take_while_lt test [] l k h t = absurd (omega arith)
take_while_lt test (c ∷ cs) l k h t =
    rw t (omega (arith, take_while-le test cs (line_after c l) (col_after c k)))

skip_line-le : (s : Bytes) (l k : ℕ) → size (skip_line s l k) ≤ length s
unfolding skip_line
skip_line-le [] l k = omega arith
skip_line-le (c ∷ cs) l k = ground (arith, skip_line-le cs (line_after c l) (col_after c k))

skip_line_lt :
    (c : ℕ) (cs : Bytes) (l k : ℕ)
    → (c == b'\n') ≡ false
    → size (skip_line (c ∷ cs) l k) ≤ length cs
unfolding skip_line
skip_line_lt c cs l k h = ground (arith, skip_line-le cs (line_after c l) (col_after c k))

skip_block-le : (s : Bytes) (l k : ℕ) → size (skip_block s l k) ≤ length s
unfolding skip_block
skip_block-le [] l k = omega arith
skip_block-le (c ∷ cs) l k = elim (Bool-cases (c == b'*' && peek cs == b'/')) [
  | inl e ↦
      rw e (omega (arith, advance-le (advance (at (c ∷ cs) l k)), advance-le (at (c ∷ cs) l k)))
  | inr e ↦ rw e (omega (arith, skip_block-le cs (line_after c l) (col_after c k)))
]

skip_round_lt : (cur cur' : Cursor) → skip_round cur ≡ some cur' → size cur' < size cur
unfolding skip_round
skip_round_lt cur cur' = within_bytes cur.rest refl
  where
    within_bytes :
        (s : Bytes) → cur.rest ≡ s → skip_round_in s cur ≡ some cur' → size cur' < size cur
    within_bytes [] q h = cc
    within_bytes (c ∷ cs) q h = ground (
      arith,
      advance_lt cur,
      advance-le (advance cur),
      skip_line_lt c cs cur.line cur.col,
      ap length q,
      skip_block-le (advance (advance cur)).rest (advance (advance cur)).line
          (advance (advance cur)).col,
    )

skip_after-Ensures :
    (loop : Cursor → Outcome LexError Cursor) (cur : Cursor) (o : Option Cursor)
    → ((cur' : Cursor) → o ≡ some cur' → Ensures (λ c. size c ≤ size cur) (loop cur'))
    → Ensures (λ c. size c ≤ size cur) (skip_after loop cur o)
unfolding skip_after
skip_after-Ensures loop cur none h = holds (omega arith)
skip_after-Ensures loop cur (some cur') h = h cur' refl

pub skip_loop-Ensures :
    (f : ℕ) (cur : Cursor) → size cur < f → Ensures (λ c. size c ≤ size cur) (skip_loop f cur)
unfolding skip_loop
skip_loop-Ensures zero cur h = absurd (omega arith)
skip_loop-Ensures (suc f) cur h = skip_after-Ensures (skip_loop f) cur (skip_round cur) (λ cur' e.
    Ensures-mono (skip_loop-Ensures f cur' (omega (arith, skip_round_lt cur cur' e)))
      (λ c k. omega (arith, skip_round_lt cur cur' e)))

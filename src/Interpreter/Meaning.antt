-- ===== src/Interpreter/Meaning.antt =====
-- The meaning of the binary operators of src/ztl/interpreter.cpp on values, as rules, and that
-- binary_value follows them.
use zero_trust_public.Base.{
  ℕ, Bool, true, false, not, ◌||◌, ◌++◌, Bytes, codes, bytes_eq, bytes_eq_iff, ◌≡◌, refl,
  Bool-cases, inl, inr,
}
use zero_trust_public.Runtime.{
  Value, boolean, double, Completion, normal, runtime_error, NativeFn, Numbers, text, values_equal,
  value_to_string,
}
use zero_trust_public.Runtime.State.{State, pure, fail, continue, ◌>>=◌}
use zero_trust_public.Interpreter.Operators.{
  print_value, truth, need_number, compare_with, add_values, subtract_values, binary_value,
}

-- The text of a value in a state.
unfoldable pub printed :
    {D W : Type 0} → Numbers D → (ℕ → NativeFn D W) → State D W → Value D → Bytes
printed num natives st v =
    value_to_string num (λ o. (st.shared.objects o).type_name) (λ f. (natives f).name) v

abbrev both_numbers : {D : Type 0} → Value D → Value D → Bool
both_numbers (double _) (double _) = true
both_numbers _ _ = false

-- The operators that take numbers only, and all of them.
unfoldable pub needs_numbers : Bytes → Bool
needs_numbers op =
    bytes_eq op (codes "-")
    || (bytes_eq op (codes "<")
        || (bytes_eq op (codes ">") || (bytes_eq op (codes "<=") || bytes_eq op (codes ">="))))

unfoldable pub is_operator : Bytes → Bool
unfolding needs_numbers
is_operator op =
    bytes_eq op (codes "==")
    || (bytes_eq op (codes "!=") || (bytes_eq op (codes "+") || needs_numbers op))

-- The meaning of the operators: `op` on l and r is a value.
pub data Means {D W : Type 0} (num : Numbers D) (natives : ℕ → NativeFn D W) (st : State D W)
    (op : Bytes) (l r : Value D) : Value D → Type 0 where
  equal : op ≡ codes "==" → Means num natives st op l r (boolean (values_equal num l r))
  unequal : op ≡ codes "!=" → Means num natives st op l r (boolean (not (values_equal num l r)))
  sum :
      {m n : D}
      → op ≡ codes "+"
      → l ≡ double m
      → r ≡ double n
      → Means num natives st op l r (double (num.add m n))
  joined :
      op ≡ codes "+"
      → both_numbers l r ≡ false
      → Means num natives st op l r (text (printed num natives st l ++ printed num natives st r))
  difference :
      {m n : D}
      → op ≡ codes "-"
      → l ≡ double m
      → r ≡ double n
      → Means num natives st op l r (double (num.subtract m n))
  below :
      {m n : D}
      → op ≡ codes "<"
      → l ≡ double m
      → r ≡ double n
      → Means num natives st op l r (boolean (num.less m n))
  above :
      {m n : D}
      → op ≡ codes ">"
      → l ≡ double m
      → r ≡ double n
      → Means num natives st op l r (boolean (num.less n m))
  at_most :
      {m n : D}
      → op ≡ codes "<="
      → l ≡ double m
      → r ≡ double n
      → Means num natives st op l r (boolean (num.less_eq m n))
  at_least :
      {m n : D}
      → op ≡ codes ">="
      → l ≡ double m
      → r ≡ double n
      → Means num natives st op l r (boolean (num.less_eq n m))

-- The operators and values that have no meaning.
pub data IsMeaningless {D : Type 0} (op : Bytes) (l r : Value D) : Type 0 where
  no_numbers : needs_numbers op ≡ true → both_numbers l r ≡ false → IsMeaningless op l r
  unknown : is_operator op ≡ false → IsMeaningless op l r

-- How an operator on values ends: with its meaning, or, where it has none, with an error at the place
-- of the operator; the state is the one before.
pub data Operates {D W : Type 0} (num : Numbers D) (natives : ℕ → NativeFn D W) (op : Bytes)
    (l r : Value D) (line col : ℕ) (st : State D W)
    : Completion D (Value D) × State D W → Type 0 where
  gives :
      {v : Value D}
      → Means num natives st op l r v
      → Operates num natives op l r line col st (normal v, st)
  fails :
      {msg : Bytes}
      → IsMeaningless op l r
      → Operates num natives op l r line col st (runtime_error msg line col, st)

module _ {D W : Type 0} (num : Numbers D) (natives : ℕ → NativeFn D W) where
  -- With the operator that the test finds.
  at_operator :
      (op found : Bytes) (l r : Value D) (line col : ℕ) (st : State D W)
      → bytes_eq op found ≡ true
      → Operates num natives found l r line col st (binary_value num natives found l r line col st)
      → Operates num natives op l r line col st (binary_value num natives op l r line col st)
  at_operator op found l r line col st e h = rw ((bytes_eq_iff op found).0 e) h

  compare-Operates :
      (test : D → D → Bool) (op : Bytes) (l r : Value D) (line col : ℕ) (st : State D W)
      → ((m n : D) → l ≡ double m → r ≡ double n → Means num natives st op l r (boolean (test m n)))
      → needs_numbers op ≡ true
      → Operates num natives op l r line col st (compare_with num natives test l r line col st)
  unfolding compare_with need_number truth pure fail ◌>>=◌ continue
  compare-Operates test op (double m) (double n) line col st h k = gives (h m n refl refl)
  compare-Operates test op (double m) _ line col st h k = fails (no_numbers k refl)
  compare-Operates test op _ _ line col st h k = fails (no_numbers k refl)

  add-Operates :
      (l r : Value D) (line col : ℕ) (st : State D W)
      → Operates num natives (codes "+") l r line col st (add_values num natives l r st)
  unfolding add_values printed print_value pure ◌>>=◌ continue
  add-Operates (double m) (double n) line col st = gives (sum refl refl refl)
  add-Operates _ _ line col st = gives (joined refl refl)

  subtract-Operates :
      (l r : Value D) (line col : ℕ) (st : State D W)
      → Operates num natives
          (codes "-")
          l
          r
          line
          col
          st
          (subtract_values num natives l r line col st)
  unfolding subtract_values pure fail needs_numbers bytes_eq
  subtract-Operates (double m) (double n) line col st = gives (difference refl refl refl)
  subtract-Operates _ _ line col st = fails (no_numbers refl refl)

  -- A binary operator on values other than `&&` and `||`, known or unknown, ends with its meaning:
  -- `==` and `!=` on any values, the sum of two numbers or else the two texts joined for `+`, and for
  -- `-`, `<`, `>`, `<=` and `>=` the difference or the order of two numbers. It raises `RuntimeError`,
  -- at its own line and column, only for an unknown operator, or where one of the last five gets
  -- another value than a number. It never changes the state.
  pub binary_value-Operates :
      (op : Bytes) (l r : Value D) (line col : ℕ) (st : State D W)
      → Operates num natives op l r line col st (binary_value num natives op l r line col st)
  unfolding binary_value is_operator needs_numbers bytes_eq truth pure fail
  binary_value-Operates op l r line col st = elim (Bool-cases (bytes_eq op (codes "=="))) [
    | inl e ↦ at_operator op (codes "==") l r line col st e (gives (equal refl))
    | inr e₁ ↦ elim (Bool-cases (bytes_eq op (codes "!="))) [
      | inl e ↦ at_operator op (codes "!=") l r line col st e (gives (unequal refl))
      | inr e₂ ↦ elim (Bool-cases (bytes_eq op (codes "+"))) [
        | inl e ↦ at_operator op (codes "+") l r line col st e (add-Operates l r line col st)
        | inr e₃ ↦ elim (Bool-cases (bytes_eq op (codes "-"))) [
          | inl e ↦ at_operator op (codes "-") l r line col st e (subtract-Operates l r line col st)
          | inr e₄ ↦ elim (Bool-cases (bytes_eq op (codes "<"))) [
            | inl e ↦
                at_operator op (codes "<") l r line col st e
                  (compare-Operates _ (codes "<") l r line col st (λ m n. below refl) refl)
            | inr e₅ ↦ elim (Bool-cases (bytes_eq op (codes ">"))) [
              | inl e ↦
                  at_operator op (codes ">") l r line col st e
                    (compare-Operates _ (codes ">") l r line col st (λ m n. above refl) refl)
              | inr e₆ ↦ elim (Bool-cases (bytes_eq op (codes "<="))) [
                | inl e ↦
                    at_operator op (codes "<=") l r line col st e
                      (compare-Operates _ (codes "<=") l r line col st (λ m n. at_most refl) refl)
                | inr e₇ ↦ elim (Bool-cases (bytes_eq op (codes ">="))) [
                  | inl e ↦
                      at_operator op (codes ">=") l r line col st e (
                        compare-Operates _ (codes ">=") l r line col st (λ m n. at_least refl) refl)
                  | inr e₈ ↦
                      let none_of : is_operator op ≡ false =
                        rw (is_operator, e₁, e₂, e₃, e₄, e₅, e₆, e₇, e₈) refl in
                      rw (binary_value, e₁, e₂, e₃, e₄, e₅, e₆, e₇, e₈) (fails (unknown none_of))
                ]
              ]
            ]
          ]
        ]
      ]
    ]
  ]

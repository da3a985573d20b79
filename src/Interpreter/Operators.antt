-- ===== src/Interpreter/Operators.antt =====
-- src/ztl/interpreter.cpp: operators, members and calls on values that are evaluated already.
use zero_trust_public.Base.{
  ℕ, Bool, not, List, ◌++◌, Bytes, codes, bytes_eq, if◌then◌else◌, Option, none, some,
}
use zero_trust_public.Runtime.{
  Value, boolean, double, text, function, Vars, Object, normal, Effect, CallContext, NativeFn,
  Numbers, find, as_object, as_string, as_number, type_name_of, is_truthy, values_equal,
  value_to_string,
}
use zero_trust_public.Runtime.State.{Run, pure, fail, ◌>>=◌, over_shared}
use zero_trust_public.Interpreter.Strings.{call_string_method}

-- The context of a call, which the two kinds of calls make alike.
abbrev pub context :
    {D W : Type 0}
    → Value D
    → List (Value D) × Vars D
    → Option (Effect D W Unit)
    → ℕ
    → ℕ
    → CallContext D W
context self given block_run line col = record {
  self = self;
  positional = given.0;
  named = given.1;
  block = block_run;
  line = line;
  col = col;
}

module _ {D W : Type 0} (num : Numbers D) (natives : ℕ → NativeFn D W) where
  -- Objects and functions are printed with their types and names.
  unfoldable pub print_value : Value D → Run D W Bytes
  unfolding value_to_string
  print_value v st = (
    normal (value_to_string num (λ o. (st.shared.objects o).type_name) (λ f. (natives f).name) v),
    st,
  )

  unfoldable pub truth : Bool → Run D W (Value D)
  unfolding pure
  truth b = pure (boolean b)

  -- `need_num`
  unfoldable pub need_number : Value D → ℕ → ℕ → Run D W D
  unfolding pure fail
  need_number v line col = elim (as_number v) [
    | none ↦ fail (codes "comparison requires numbers") line col
    | some n ↦ pure n
  ]

  unfoldable pub compare_with : (D → D → Bool) → Value D → Value D → ℕ → ℕ → Run D W (Value D)
  unfolding need_number truth ◌>>=◌
  compare_with test l r line col =
      need_number l line col >>= λ m. need_number r line col >>= λ n. truth (test m n)

  unfoldable pub add_values : Value D → Value D → Run D W (Value D)
  unfolding print_value pure ◌>>=◌
  add_values (double m) (double n) = pure (double (num.add m n))
  add_values l r = print_value l >>= λ s. print_value r >>= λ t. pure (text (s ++ t))

  unfoldable pub subtract_values : Value D → Value D → ℕ → ℕ → Run D W (Value D)
  unfolding pure fail
  subtract_values (double m) (double n) line col = pure (double (num.subtract m n))
  subtract_values l r line col = fail (codes "'-' requires numbers") line col

  -- A binary operator on the values of its sides, but for `&&` and `||`.
  unfoldable pub binary_value : Bytes → Value D → Value D → ℕ → ℕ → Run D W (Value D)
  unfolding truth fail values_equal add_values subtract_values compare_with
  binary_value op l r line col =
      if bytes_eq op (codes "==")
      then truth (values_equal num l r)
      else if bytes_eq op (codes "!=")
      then truth (not (values_equal num l r))
      else if bytes_eq op (codes "+")
      then add_values l r
      else if bytes_eq op (codes "-")
      then subtract_values l r line col
      else if bytes_eq op (codes "<")
      then compare_with num.less l r line col
      else if bytes_eq op (codes ">")
      then compare_with (λ m n. num.less n m) l r line col
      else if bytes_eq op (codes "<=")
      then compare_with num.less_eq l r line col
      else if bytes_eq op (codes ">=")
      then compare_with (λ m n. num.less_eq n m) l r line col
      else fail (codes "unknown binary op '" ++ (op ++ codes "'")) line col

  unfoldable pub negate_value : Value D → ℕ → ℕ → Run D W (Value D)
  unfolding pure fail
  negate_value v line col = elim (as_number v) [
    | none ↦ fail (codes "cannot negate non-number") line col
    | some n ↦ pure (double (num.negate n))
  ]

  unfoldable pub unary_value : Bytes → Value D → ℕ → ℕ → Run D W (Value D)
  unfolding truth fail is_truthy negate_value
  unary_value op v line col =
      if bytes_eq op (codes "!")
      then truth (not (is_truthy num v))
      else if bytes_eq op (codes "-")
      then negate_value v line col
      else fail (codes "unknown unary op '" ++ (op ++ codes "'")) line col

  -- The member of an object: a field, or else the function of a method.
  unfoldable pub object_member : Object D → Bytes → ℕ → ℕ → Run D W (Value D)
  unfolding find pure fail
  object_member obj member line col = elim (find member obj.fields) [
    | some v ↦ pure v
    | none ↦ elim (find member obj.methods) [
      | some f ↦ pure (function f)
      | none ↦
          fail
            (codes "object '"
              ++ (obj.type_name ++ (codes "' has no member '" ++ (member ++ codes "'"))))
            line col
    ]
  ]

  -- `eval_member` on the value of the receiver and the place of its expression.
  unfoldable pub member_of : Value D → Bytes → ℕ → ℕ → Run D W (Value D)
  unfolding object_member type_name_of fail
  member_of receiver member line col st = elim (as_object receiver) [
    | none ↦
        fail
          (codes "cannot access '."
            ++ (member ++ (codes "' on non-object (" ++ (type_name_of receiver ++ codes ")"))))
          line col st
    | some o ↦ object_member (st.shared.objects o) member line col st
  ]

  unfoldable pub call_native : NativeFn D W → CallContext D W → Run D W (Value D)
  unfolding over_shared
  call_native native ctx = over_shared (native.fn ctx)

  unfoldable pub object_method : Object D → Bytes → CallContext D W → Run D W (Value D)
  unfolding find call_native fail
  object_method obj method ctx = elim (find method obj.methods) [
    | none ↦
        fail
          (codes "object '"
            ++ (obj.type_name ++ (codes "' has no method '" ++ (method ++ codes "'"))))
          ctx.line ctx.col
    | some f ↦ call_native (natives f) ctx
  ]

  unfoldable pub invoke_method : Bytes → CallContext D W → Run D W (Value D)
  unfolding object_method type_name_of fail call_string_method
  invoke_method method ctx st = elim (as_string ctx.self) [
    | some s ↦ (call_string_method num s method ctx.positional ctx.line ctx.col, st)
    | none ↦ elim (as_object ctx.self) [
      | none ↦
          fail
            (codes "cannot call method '" ++ (method ++ (codes "' on " ++ type_name_of ctx.self)))
            ctx.line ctx.col st
      | some o ↦ object_method (st.shared.objects o) method ctx st
    ]
  ]

  unfoldable pub invoke_function : Value D → CallContext D W → Run D W (Value D)
  unfolding call_native type_name_of fail
  invoke_function (function f) ctx = call_native (natives f) ctx
  invoke_function callee ctx =
      fail (codes "value is not callable (" ++ (type_name_of callee ++ codes ")")) ctx.line ctx.col

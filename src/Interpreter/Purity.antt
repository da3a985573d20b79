-- ===== src/Interpreter/Purity.antt =====
-- Runs that keep what a view sees of the state: operators, members and calls.
use zero_trust_public.Base.{
  ℕ, Bool, true, false, List, Bytes, codes, bytes_eq, if◌then◌else◌, Option, ap, ◌≡◌, refl, ◌∙◌,
  Option-cases, inl, inr,
}
use zero_trust_public.Parser.{Stmts, done, stmt}
use zero_trust_public.Runtime.{
  Value, double, text, object, function, Vars, Completion, normal, runtime_error, returned, thrown,
  Effect, NativeFn, CallContext, Object, Numbers, find, lookup, is_truthy,
}
use zero_trust_public.Runtime.State.{
  State, Run, pure, fail, raise_return, continue, ◌>>=◌, chain, read_variable,
}
use zero_trust_public.Interpreter.Operators.{
  context, print_value, truth, need_number, compare_with, add_values, subtract_values, binary_value,
  negate_value, unary_value, object_member, member_of, call_native, object_method, invoke_method,
  invoke_function,
}
use zero_trust_public.Interpreter.{if_truthy, unless_empty}

-- A run that changes nothing of what `view` sees of the state.
pub record Keeps {D W B A : Type 0} (view : State D W → B) (run : Run D W A) : Type 0 where
  pub keeps : (st : State D W) → view (run st).1 ≡ view st

module _ {D W B : Type 0} {view : State D W → B} where
  pub Keeps-pure : {A : Type 0} (a : A) → Keeps view (pure a)
  unfolding pure
  Keeps-pure a = record { keeps = λ st. refl }

  Keeps-fail : (A : Type 0) (msg : Bytes) (line col : ℕ) → Keeps {A = A} view (fail msg line col)
  unfolding fail
  Keeps-fail A msg line col = record { keeps = λ st. refl }

  pub Keeps-raise : (v : Value D) → Keeps view (raise_return v)
  unfolding raise_return
  Keeps-raise v = record { keeps = λ st. refl }

  Keeps-continue :
      {A C : Type 0} (r : Completion D A × State D W) (f : A → Run D W C)
      → ((a : A) → Keeps view (f a))
      → view (continue r f).1 ≡ view r.1
  unfolding continue
  Keeps-continue (normal a, st) f h = (h a).keeps st
  Keeps-continue (runtime_error msg line col, st) f h = refl
  Keeps-continue (returned v, st) f h = refl
  Keeps-continue (thrown msg, st) f h = refl

  pub Keeps-bind :
      {A C : Type 0} {m : Run D W A} {f : A → Run D W C}
      → Keeps view m
      → ((a : A) → Keeps view (f a))
      → Keeps view (m >>= f)
  unfolding ◌>>=◌
  Keeps-bind {m = m} {f = f} h k = record { keeps = λ st. Keeps-continue (m st) f k ∙ h.keeps st }

  pub Keeps-if :
      {A : Type 0} (b : Bool) {m n : Run D W A}
      → Keeps view m
      → Keeps view n
      → Keeps view (if b then m else n)
  Keeps-if true h k = h
  Keeps-if false h k = k

-- Nothing of the state changes.
pub same : {D W : Type 0} → State D W → State D W
same st = st

abbrev pub Pure : {D W A : Type 0} → Run D W A → Type 0
Pure run = Keeps same run

pub Keeps-Pure :
    {D W B A : Type 0} {view : State D W → B} {run : Run D W A} → Pure run → Keeps view run
unfolding same
Keeps-Pure {view = view} h = record { keeps = λ st. ap view (h.keeps st) }

module _ {D W : Type 0} (num : Numbers D) (natives : ℕ → NativeFn D W) where
  number-Pure : (v : Value D) (line col : ℕ) → Pure (need_number num natives v line col)
  unfolding need_number fail pure
  number-Pure (double n) line col = record { keeps = λ st. refl }
  number-Pure _ line col = record { keeps = λ st. refl }

  compare-Pure :
      (test : D → D → Bool) (l r : Value D) (line col : ℕ)
      → Pure (compare_with num natives test l r line col)
  unfolding compare_with truth
  compare-Pure test l r line col =
      Keeps-bind (number-Pure l line col)
        (λ m. Keeps-bind (number-Pure r line col) (λ n. (Keeps-pure _)))

  add-Pure : (l r : Value D) → Pure (add_values num natives l r)
  unfolding add_values print_value pure ◌>>=◌ continue
  add-Pure (double m) (double n) = record { keeps = λ st. refl }
  add-Pure _ _ = record { keeps = λ st. refl }

  subtract-Pure : (l r : Value D) (line col : ℕ) → Pure (subtract_values num natives l r line col)
  unfolding subtract_values pure fail
  subtract-Pure (double m) (double n) line col = record { keeps = λ st. refl }
  subtract-Pure _ _ line col = record { keeps = λ st. refl }

  pub binary_value-Pure :
      (op : Bytes) (l r : Value D) (line col : ℕ) → Pure (binary_value num natives op l r line col)
  unfolding binary_value truth
  binary_value-Pure op l r line col = Keeps-if (bytes_eq op (codes "==")) (Keeps-pure _) (
      Keeps-if (bytes_eq op (codes "!=")) (Keeps-pure _) (
        Keeps-if (bytes_eq op (codes "+")) (add-Pure l r) (
          Keeps-if (bytes_eq op (codes "-")) (subtract-Pure l r line col) (
            Keeps-if (bytes_eq op (codes "<")) (compare-Pure _ l r line col) (
              Keeps-if (bytes_eq op (codes ">")) (compare-Pure _ l r line col) (
                Keeps-if (bytes_eq op (codes "<=")) (compare-Pure _ l r line col) (
                  Keeps-if (bytes_eq op (codes ">=")) (compare-Pure _ l r line col)
                    (Keeps-fail _ _ _ _))))))))

  negate-Pure : (v : Value D) (line col : ℕ) → Pure (negate_value num natives v line col)
  unfolding negate_value fail pure
  negate-Pure (double n) line col = record { keeps = λ st. refl }
  negate-Pure _ line col = record { keeps = λ st. refl }

  pub unary_value-Pure :
      (op : Bytes) (v : Value D) (line col : ℕ) → Pure (unary_value num natives op v line col)
  unfolding unary_value truth
  unary_value-Pure op v line col =
      Keeps-if (bytes_eq op (codes "!")) (Keeps-pure _)
        (Keeps-if (bytes_eq op (codes "-")) (negate-Pure v line col) (Keeps-fail _ _ _ _))

  object_member-Pure :
      (obj : Object D) (member : Bytes) (line col : ℕ)
      → Pure (object_member num natives obj member line col)
  unfolding object_member
  object_member-Pure obj member line col = elim (Option-cases (find member obj.fields)) [
    | inr (v, e) ↦ rw (object_member, e) (Keeps-pure _)
    | inl e ↦ elim (Option-cases (find member obj.methods)) [
      | inr (f, q) ↦ rw (object_member, e, q) (Keeps-pure _)
      | inl q ↦ rw (object_member, e, q) (Keeps-fail _ _ _ _)
    ]
  ]

  -- Which object a reference stands for depends on the state.
  pub member-Pure :
      (receiver : Value D) (member : Bytes) (line col : ℕ)
      → Pure (member_of num natives receiver member line col)
  unfolding member_of fail
  member-Pure (object o) member line col = record {
    keeps = λ st. (object_member-Pure (st.shared.objects o) member line col).keeps st;
  }
  member-Pure _ member line col = record { keeps = λ st. refl }

  -- What is called may be a native function, in a context.
  abbrev pub CallsKeep : {B : Type 0} → (State D W → B) → CallContext D W → Type 0
  CallsKeep view ctx = (f : ℕ) → Keeps view (call_native num natives (natives f) ctx)

  module _ {B : Type 0} {view : State D W → B} where
    object_method-Keeps :
        (obj : Object D) (method : Bytes) (ctx : CallContext D W)
        → CallsKeep view ctx
        → Keeps view (object_method num natives obj method ctx)
    unfolding object_method
    object_method-Keeps obj method ctx calls = elim (Option-cases (find method obj.methods)) [
      | inl e ↦ rw (object_method, e) (Keeps-fail _ _ _ _)
      | inr (f, e) ↦ rw (object_method, e) (calls f)
    ]

    pub invoke_method-Keeps :
        (method : Bytes) (receiver : Value D) (given : List (Value D) × Vars D)
        (body : Option (Effect D W Unit)) (line col : ℕ)
        → CallsKeep view (context receiver given body line col)
        → Keeps view (invoke_method num natives method (context receiver given body line col))
    unfolding invoke_method fail
    invoke_method-Keeps method (text s) given body line col calls = record { keeps = λ st. refl }
    invoke_method-Keeps method (object o) given body line col calls =
        let ctx = context (object o) given body line col in
        record {
          keeps = λ st. (object_method-Keeps (st.shared.objects o) method ctx calls).keeps st;
        }
    invoke_method-Keeps method _ given body line col calls = record { keeps = λ st. refl }

    pub invoke_function-Keeps :
        (f : Value D) (ctx : CallContext D W)
        → CallsKeep view ctx
        → Keeps view (invoke_function num natives f ctx)
    unfolding invoke_function fail
    invoke_function-Keeps (function f) ctx calls = calls f
    invoke_function-Keeps _ ctx calls = record { keeps = λ st. refl }

  pub variable-Pure :
      (message name : Bytes) (line col : ℕ)
      → Pure {W = W} {A = Value D} (read_variable message name line col)
  unfolding read_variable fail
  variable-Pure message name line col = record {
    keeps = λ st. elim (Option-cases (lookup name (chain st))) [
      | inl e ↦ rw (read_variable, e) refl
      | inr (v, e) ↦ rw (read_variable, e) refl
    ];
  }

  pub unless_empty-Keeps :
      {B : Type 0} {view : State D W → B} (body : Stmts D) (run : Run D W Unit)
      → Keeps view run
      → Keeps view (unless_empty num natives body run)
  unfolding unless_empty
  unless_empty-Keeps done run h = Keeps-pure _
  unless_empty-Keeps (stmt _ _) run h = h

  pub truthy-Keeps :
      {B : Type 0} {view : State D W → B} (v : Value D) (there behind : Run D W (Value D))
      → Keeps view there
      → Keeps view behind
      → Keeps view (if_truthy num natives v there behind)
  unfolding if_truthy
  truthy-Keeps v there behind h k = Keeps-if (is_truthy num v) h k

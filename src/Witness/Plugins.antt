-- ===== src/Witness/Plugins.antt =====
-- The theorems on the interpreter of plugins and their runs at concrete inputs.
use zero_trust_public.Base.{
  ℕ, ◌+◌, ◌-◌, ◌≡◌, refl, Bool, true, false, List, [], ◌∷◌, Bytes, codes, bytes_eq, if◌then◌else◌,
  Option, none, some, ltb, leb, ◌==◌, to_string,
}
use zero_trust_public.Parser.{
  literal_number, identifier, unary_op, binary_op, call, no_args, block, Stmts, expr_stmt, done,
  stmt, assign_stmt,
}
use zero_trust_public.Runtime.{
  Value, null, double, text, function, Shared, normal, NativeFn, Numbers, lookup,
}
use zero_trust_public.Runtime.State.{State, chain}
use zero_trust_public.Runtime.Names.{names}
use zero_trust_public.Interpreter.{eval_expr, exec_stmt, exec_block}
use zero_trust_public.Interpreter.Operators.{binary_value}
use zero_trust_public.Interpreter.Scoping.{exec_block-names}
use zero_trust_public.Interpreter.Algebra.{eval_expr-not_and, exec_stmt-lookup}
use zero_trust_public.Interpreter.Meaning.{Operates, binary_value-Operates}
use zero_trust_public.Runner.{RunState}
use zero_trust_public.Runner.Natives.{Context}
use zero_trust_public.Runner.Actions.{finding_fn}
use zero_trust_public.Runner.Laws.{Reported, finding_fn-Reported}
use zero_trust_public.Runner.Plugins.{LoadedPlugin, RunOutcome, start_state, register_stdlib}
use zero_trust_public.Runner.Passes.{
  Port, one_pass, detectors_first, start_port, run_for_port, run_for_port-one_pass,
}
use zero_trust_public.Witness.Findings.{hundredths}

-- Natural numbers in place of doubles.
abbrev whole : Numbers ℕ
whole = record {
  of_size = λ n. n;
  to_size = λ n. n;
  negate = λ n. n;
  add = λ m n. m + n;
  subtract = λ m n. m - n;
  equal = λ m n. m == n;
  less = λ m n. ltb m n;
  less_eq = λ m n. leb m n;
  floor = λ n. n;
  abs = λ n. n;
  is_finite = λ _. true;
  print_integer = λ n. to_string n;
  print = λ n. to_string n;
}

-- A native function that gives its first argument back.
abbrev first_argument : ℕ → NativeFn ℕ Unit
first_argument _ = record {
  name = codes "first";
  fn = λ c sh. (normal (elim c.positional [ [] ↦ null | v ∷ _ ↦ v ]), sh);
}

-- A block inside the globals, with x in both.
abbrev state : State ℕ Unit
state = record {
  locals = ((codes "x", double 1) ∷ []) ∷ [];
  shared = record {
    globals = (codes "x", double 5) ∷ (codes "y", text (codes "a")) ∷ (codes "f", function 0) ∷ [];
    objects = λ _. record { type_name = []; fields = []; methods = [] };
    world = tt;
  };
}

-- It calls a native function with a block, and assigns a name that is not there.
abbrev block_of_two : Stmts ℕ
block_of_two =
    stmt
      (expr_stmt
        (call (identifier (codes "f") 1 1) no_args
          (block (stmt (assign_stmt (codes "w") (literal_number 3 1 1) 1 1) done)) 1 1)
        1 1)
      (stmt (assign_stmt (codes "z") (literal_number 2 1 1) 1 1) done)

exec_block-names_example :
    names (chain (exec_block whole first_argument block_of_two state).1) ≡ names (chain state)
exec_block-names_example =
    exec_block-names whole first_argument (λ f ctx body shared. refl) block_of_two state

eval_expr-not_and_example :
    eval_expr whole first_argument
      (unary_op
        (codes "!")
        (binary_op (codes "&&") (identifier (codes "x") 1 2) (identifier (codes "q") 1 7) 1 1)
        1
        1)
      state
    ≡ eval_expr whole first_argument
        (binary_op
          (codes "||")
          (unary_op (codes "!") (identifier (codes "x") 1 2) 1 1)
          (unary_op (codes "!") (identifier (codes "q") 1 7) 1 1)
          1
          1)
        state
eval_expr-not_and_example =
    eval_expr-not_and whole first_argument (identifier (codes "x") 1 2) (identifier (codes "q") 1 7)
      1 1 state

exec_stmt-lookup_example :
    ((exec_stmt whole first_argument (assign_stmt (codes "y") (literal_number 2 1 1) 1 1) state).0
      ≡ normal tt)
    × (lookup (codes "x") (
          chain
            (exec_stmt whole first_argument
              (assign_stmt (codes "y") (literal_number 2 1 1) 1 1)
              state).1)
        ≡ (if bytes_eq (codes "y") (codes "x")
            then some (double 2)
            else lookup (codes "x") (chain state)))
unfolding eval_expr
exec_stmt-lookup_example =
    exec_stmt-lookup whole first_argument (codes "y") (codes "x") (literal_number 2 1 1) 1 1 state
      state (double 2) refl

binary_value-Operates_example :
    Operates whole first_argument
      (codes "<")
      (double 1)
      (text [])
      3
      4
      state
      (binary_value whole first_argument (codes "<") (double 1) (text []) 3 4 state)
binary_value-Operates_example =
    binary_value-Operates whole first_argument (codes "<") (double 1) (text []) 3 4 state

abbrev run_start : Shared ℕ (RunState ℕ)
run_start =
    register_stdlib whole hundredths [] 7
      (λ _. record { name = codes "net"; fn = λ c sh. (normal null, sh) })
      (start_state whole hundredths [] 7
        (λ _. record { name = codes "net"; fn = λ c sh. (normal null, sh) }) (codes "10.0.0.1") 22
        (codes "ssh") none)

abbrev titled : Context ℕ
titled = record {
  self = null;
  positional = [];
  named = (codes "title", text (codes "open relay")) ∷ [];
  block = none;
  line = 2;
  col = 3;
}

finding_fn-Reported_example :
    Reported run_start (finding_fn whole hundredths 7 (λ _. []) titled run_start)
finding_fn-Reported_example = finding_fn-Reported whole hundredths 7 (λ _. []) titled run_start

abbrev plugin : Bool → Bytes → LoadedPlugin ℕ
plugin any service = record {
  program = done;
  source_path = codes "p.ztl";
  preview_meta = record {
    name = [];
    description = [];
    category = [];
    filter_service = service;
    filter_any = any;
  };
}

-- A run that finds the service if it has not been found.
abbrev detect :
    LoadedPlugin ℕ
    → Bytes
    → Option (List (Bytes × Value ℕ))
    → RunOutcome ℕ × Option (List (Bytes × Value ℕ))
detect lp service facts = (
  record {
    meta = lp.preview_meta;
    findings = [];
    detected_service = codes "ssh";
    detected_product = [];
    detected_version = [];
    detected_port = 22;
  },
  facts,
)

run_for_port-one_pass_example :
    let s : Port ℕ =
      one_pass detect
        (detectors_first detect (plugin false (codes "ssh") ∷ plugin true [] ∷ []))
        (start_port []) in
    run_for_port detect (plugin false (codes "ssh") ∷ plugin true [] ∷ []) []
    ≡ (s.out, record { service = s.svc; product = s.product; version = s.version })
run_for_port-one_pass_example =
    run_for_port-one_pass detect (plugin false (codes "ssh") ∷ plugin true [] ∷ []) []

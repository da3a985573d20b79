-- ===== src/Runtime.antt =====
-- src/ztl/runtime.hpp: the values of a plugin, its errors and its variables, and the helpers of
-- src/ztl/interpreter.cpp on values.
--
-- An object and a native function are references, since the source shares them and compares them by
-- address: the number of an object stands for its place in `objects`.
pub mod State
pub mod Scopes
pub mod Names
use zero_trust_public.Base.{
  ℕ, ◌^◌, Bool, true, false, not, ◌&&◌, List, [], ◌∷◌, ◌++◌, Bytes, codes, bytes_eq, is_empty,
  if◌then◌else◌, Option, none, some, ◌==◌, to_string,
}

pub data Value (D : Type 0) : Type 0 where
  null : Value D
  boolean : Bool → Value D
  double : D → Value D
  text : Bytes → Value D
  object : ℕ → Value D
  function : ℕ → Value D

-- `std::unordered_map`: no two pairs with the same key.
abbrev pub Vars : Type 0 → Type 0
Vars D = List (Bytes × Value D)

-- The native functions of an object are references, like those of a value.
pub record Object (D : Type 0) : Type 0 where
  pub type_name : Bytes
  pub fields : Vars D
  pub methods : List (Bytes × ℕ)

-- What the interpreter's globals are part of; `world` is what only native functions reach.
pub record Shared (D W : Type 0) : Type 0 where
  pub globals : Vars D
  pub objects : ℕ → Object D
  pub world : W

-- How an evaluation ends: with a result, `RuntimeError` with its message and position,
-- `ReturnException`, or another exception, which native functions may throw.
pub data Completion (D A : Type 0) : Type 0 where
  normal : A → Completion D A
  runtime_error : Bytes → ℕ → ℕ → Completion D A
  returned : Value D → Completion D A
  thrown : Bytes → Completion D A

abbrev pub Effect : Type 0 → Type 0 → Type 0 → Type 0
Effect D W A = Shared D W → Completion D A × Shared D W

-- The block is given as what running it in a scope of its own over the globals does.
pub record CallContext (D W : Type 0) : Type 0 where
  pub self : Value D
  pub positional : List (Value D)
  pub named : Vars D
  pub block : Option (Effect D W Unit)
  pub line : ℕ
  pub col : ℕ

pub record NativeFn (D W : Type 0) : Type 0 where
  pub name : Bytes
  pub fn : CallContext D W → Effect D W (Value D)

-- `double` and what the interpreter does with it.
pub record Numbers (D : Type 0) : Type 0 where
  pub of_size : ℕ → D
  pub to_size : D → ℕ
  pub negate : D → D
  pub add : D → D → D
  pub subtract : D → D → D
  pub equal : D → D → Bool
  pub less : D → D → Bool
  pub less_eq : D → D → Bool
  pub floor : D → D
  pub abs : D → D
  pub is_finite : D → Bool
  -- The text of the number as `long long`, and as the stream writes a `double`.
  pub print_integer : D → Bytes
  pub print : D → Bytes

module _ {A : Type 0} where
  -- `m[key] = value`
  unfoldable pub put : Bytes → A → List (Bytes × A) → List (Bytes × A)
  put key v [] = (key, v) ∷ []
  put key v ((k, w) ∷ rest) =
      let later = put key v rest in if bytes_eq k key then (k, v) ∷ rest else (k, w) ∷ later

  -- `m.find(key)`
  unfoldable pub find : Bytes → List (Bytes × A) → Option A
  find key [] = none
  find key ((k, w) ∷ rest) = let later = find key rest in if bytes_eq k key then some w else later

  -- `m.count(key)`
  unfoldable pub has : Bytes → List (Bytes × A) → Bool
  has key [] = false
  has key ((k, w) ∷ rest) = let later = has key rest in if bytes_eq k key then true else later

module _ {D : Type 0} where
  -- An environment with its parents, the innermost first: `lookup`.
  unfoldable pub lookup : Bytes → List (Vars D) → Option (Value D)
  unfolding find
  lookup name [] = none
  lookup name (vars ∷ parents) =
      let later = lookup name parents in elim (find name vars) [ some v ↦ some v | none ↦ later ]

  -- `define`
  unfoldable pub define : Bytes → Value D → List (Vars D) → List (Vars D)
  unfolding put
  define name v [] = []
  define name v (vars ∷ parents) = put name v vars ∷ parents

  -- `assign`: none where no environment of the chain has the name.
  unfoldable pub assign : Bytes → Value D → List (Vars D) → Option (List (Vars D))
  unfolding put has
  assign name v [] = none
  assign name v (vars ∷ parents) =
      let later = assign name v parents in
      if has name vars
      then some (put name v vars ∷ parents)
      else elim later [ none ↦ none | some rest ↦ some (vars ∷ rest) ]

  -- `if (!env.assign(name, v)) env.define(name, v)`
  unfoldable pub assign_or_define : Bytes → Value D → List (Vars D) → List (Vars D)
  unfolding assign define
  assign_or_define name v env = elim (assign name v env) [
    | some changed ↦ changed
    | none ↦ define name v env
  ]

  abbrev pub as_object : Value D → Option ℕ
  as_object (object o) = some o
  as_object _ = none

  abbrev pub as_string : Value D → Option Bytes
  as_string (text s) = some s
  as_string _ = none

  abbrev pub as_number : Value D → Option D
  as_number (double n) = some n
  as_number _ = none

  unfoldable pub type_name_of : Value D → Bytes
  type_name_of null = codes "null"
  type_name_of (boolean _) = codes "bool"
  type_name_of (double _) = codes "number"
  type_name_of (text _) = codes "string"
  type_name_of (object _) = codes "object"
  type_name_of (function _) = codes "function"

-- The text of `RuntimeError`.
unfoldable pub what : Bytes → ℕ → ℕ → Bytes
what msg line col =
    codes "runtime error at " ++ (to_string line ++ (b':' ∷ (to_string col ++ (codes ": " ++ msg))))

module _ {D : Type 0} (num : Numbers D) where
  unfoldable pub is_truthy : Value D → Bool
  is_truthy null = false
  is_truthy (boolean b) = b
  is_truthy (double n) = not (num.equal n (num.of_size 0))
  is_truthy (text s) = not (is_empty s)
  is_truthy (object _) = true
  is_truthy (function _) = true

  unfoldable pub values_equal : Value D → Value D → Bool
  values_equal null null = true
  values_equal (boolean true) (boolean c) = c
  values_equal (boolean false) (boolean c) = not c
  values_equal (double m) (double n) = num.equal m n
  values_equal (text s) (text t) = bytes_eq s t
  values_equal (object o) (object p) = o == p
  values_equal (function f) (function g) = f == g
  values_equal _ _ = false

  unfoldable number_to_string : D → Bytes
  number_to_string n =
      if num.equal n (num.floor n)
        && (num.is_finite n && num.less (num.abs n) (num.of_size (10 ^ 15)))
      then num.print_integer n
      else num.print n

  -- With the types of the objects and the names of the functions.
  unfoldable pub value_to_string : (ℕ → Bytes) → (ℕ → Bytes) → Value D → Bytes
  unfolding number_to_string
  value_to_string type_of name_of null = codes "null"
  value_to_string type_of name_of (boolean b) = if b then codes "true" else codes "false"
  value_to_string type_of name_of (double n) = number_to_string n
  value_to_string type_of name_of (text s) = s
  value_to_string type_of name_of (object o) = b'<' ∷ (type_of o ++ codes ">")
  value_to_string type_of name_of (function f) = codes "<fn " ++ (name_of f ++ codes ">")

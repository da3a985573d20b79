-- ===== src/Reads.antt =====
-- The outcome of reading a buffer that another host has filled: the network parsers of src/protocols
-- compute positions from its bytes.
use zero_trust_public.Base.{◌≡◌, refl, Bool, true, false, if◌then◌else◌}

-- `rejected` is `false` or `std::nullopt` of the source.
pub data Parsed (A : Type 0) : Type 0 where
  parsed : A → Parsed A
  rejected : Parsed A
  out_of_bounds : Parsed A

module _ {A B : Type 0} where
  infixl 5 ◌>>=◌
  abbrev pub ◌>>=◌ : Parsed A → (A → Parsed B) → Parsed B
  parsed a >>= f = f a
  rejected >>= f = rejected
  out_of_bounds >>= f = out_of_bounds

-- No read was outside the memory.
abbrev pub InBounds : {A : Type 0} → Parsed A → Type 0
InBounds out_of_bounds = ⊥
InBounds _ = Unit

pub InBounds-bind :
    {A B : Type 0} (p : Parsed A) (f : A → Parsed B)
    → InBounds p
    → ((a : A) → p ≡ parsed a → InBounds (f a))
    → InBounds (p >>= f)
InBounds-bind (parsed a) f h k = k a refl
InBounds-bind rejected f h k = tt
InBounds-bind out_of_bounds f h k = h

pub InBounds-if :
    {A : Type 0} (b : Bool) (x y : Parsed A)
    → (b ≡ true → InBounds x)
    → (b ≡ false → InBounds y)
    → InBounds (if b then x else y)
InBounds-if true x y h k = h refl
InBounds-if false x y h k = k refl

-- ===== src/Floats.antt =====
-- What the program uses of the C floating-point numbers, as a parameter: they belong to the
-- compiler and the machine.
--
-- The carrier holds the values of `double`. A `float` is such a value too; an assignment to a
-- `float` and the result of an operation between two of them are rounded by `single`.
use mybmm.Base.{ℕ, ◌≡◌, Bool, true, false}
use mybmm.Base.{ℤ}

pub record Floats : Type 1 where
  pub Number : Type 0
  pub ltb : Number → Number → Bool
  pub leb : Number → Number → Bool
  pub add : Number → Number → Number
  pub sub : Number → Number → Number
  pub mul : Number → Number → Number
  pub div : Number → Number → Number
  pub single : Number → Number
  pub of_int : ℤ → Number
  -- the conversion `(int)`, towards zero
  pub to_int : Number → ℤ
  -- a literal: its digits and how many of them stand behind the point, `lit 425 2` for 4.25
  pub lit : ℕ → ℕ → Number

-- The comparison `<` of IEEE 754, which also holds where a side is no number.
pub record IsOrdered (fl : Floats) : Type 0 where
  pub lt_irrefl : (x : fl.Number) → fl.ltb x x ≡ false
  pub lt_trans : (x y z : fl.Number) → fl.ltb x y ≡ true → fl.ltb y z ≡ true → fl.ltb x z ≡ true

module _ (fl : Floats) where
  open fl use {Number, add, sub, mul, div, single, of_int}

  -- operations between two `float`s, and an `int` converted for one
  abbrev pub addf : Number → Number → Number
  addf x y = single (add x y)

  abbrev pub subf : Number → Number → Number
  subf x y = single (sub x y)

  abbrev pub mulf : Number → Number → Number
  mulf x y = single (mul x y)

  abbrev pub divf : Number → Number → Number
  divf x y = single (div x y)

  abbrev pub intf : ℤ → Number
  intf n = single (of_int n)

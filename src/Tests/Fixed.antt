-- ===== src/Tests/Fixed.antt =====
-- Numbers with three decimals in place of the floating-point numbers, to run the code on.
use mybmm.Base.{
  ℕ, suc, ◌+◌, ◌-◌, ◌*◌, ◌/◌, ◌^◌, if◌then◌else◌, ltb as lt_nat, leb as le_nat, arith, ℤ, pos,
  negsuc,
}
use mybmm.Floats.{Floats, IsOrdered}

abbrev positive : ℤ → ℕ
positive (pos n) = n
positive (negsuc n) = 0

abbrev negative : ℤ → ℕ
negative (pos n) = 0
negative (negsuc n) = suc n

abbrev minus : ℕ → ℕ → ℤ
minus a b = if le_nat b a then pos (a - b) else negsuc (b - a - 1)

abbrev pub fixed : Floats
fixed = record {
  Number = ℤ;
  ltb = λ a b. lt_nat (positive a + negative b) (positive b + negative a);
  leb = λ a b. le_nat (positive a + negative b) (positive b + negative a);
  add = λ a b. minus (positive a + positive b) (negative a + negative b);
  sub = λ a b. minus (positive a + negative b) (negative a + positive b);
  mul = λ a b.
      minus ((positive a * positive b + negative a * negative b) / 1000)
        ((positive a * negative b + negative a * positive b) / 1000);
  div = λ a b.
      minus (positive a * 1000 / positive b + negative a * 1000 / negative b)
        (positive a * 1000 / negative b + negative a * 1000 / positive b);
  single = λ a. a;
  of_int = λ a. minus (positive a * 1000) (negative a * 1000);
  to_int = λ a. minus (positive a / 1000) (negative a / 1000);
  lit = λ digits decimals. pos (digits * 1000 / 10 ^ decimals);
}

pub fixed-IsOrdered : IsOrdered fixed
fixed-IsOrdered = record { lt_irrefl = λ a. ground arith; lt_trans = λ a b c h k. ground arith }

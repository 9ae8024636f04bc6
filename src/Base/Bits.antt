-- ===== src/Base/Bits.antt =====
-- Flags in a state word: `|=`, `&= ~` and `& != 0` with a mask of one bit, at every bit.
use Prim.Native.Nat.{
  ℕ, zero, suc, ◌+◌, ◌-◌, ◌*◌, ◌/◌, ◌%◌, ◌≤◌, min, max, digits, bit_and, bit_or, bit_and-bitwise,
  bit_or-bitwise,
}
use mathlib.Core.Path.{◌≡◌, refl, ap}
use mathlib.Core.Bool.{Bool, not, ◌&&◌, ◌||◌}
use native.Mathlib.Omega.{arith}
use mybmm.Base.Tests.{◌==◌}

-- More fuel than the number itself changes no digit.
digits_more :
    (z : ℕ → ℕ) (f : ℕ → ℕ → ℕ) (n k m a b : ℕ)
    → a ≤ n
    → m ≡ n + k
    → digits z f m a b ≡ digits z f n a b
digits_more z f zero k zero a b h e = refl
digits_more z f zero k (suc m) zero b h e = refl
digits_more z f zero k (suc m) (suc a) b h e = absurd (omega arith)
digits_more z f (suc n) k zero a b h e = absurd (omega arith)
digits_more z f (suc n) k (suc m) zero b h e = refl
digits_more z f (suc n) k (suc m) (suc a) b h e =
    ap (λ (d : ℕ). d * 2 + f (suc a % 2) (b % 2))
      (digits_more z f n k m (suc a / 2) (b / 2) (omega arith) (omega arith))

digits_halved :
    (z : ℕ → ℕ) (f : ℕ → ℕ → ℕ) (a b : ℕ)
    → digits z f (suc a) (suc a) b
      ≡ digits z f (suc a / 2) (suc a / 2) (b / 2) * 2 + f (suc a % 2) (b % 2)
digits_halved z f a b =
    ap (λ (d : ℕ). d * 2 + f (suc a % 2) (b % 2))
      (digits_more z f (suc a / 2) (a - suc a / 2) a (suc a / 2) (b / 2) (omega arith)
        (omega arith))

-- The lowest digit of a conjunction and of a disjunction, and what stands above it.
pub and_halved : (a b : ℕ) → bit_and a b ≡ bit_and (a / 2) (b / 2) * 2 + min (a % 2) (b % 2)
and_halved zero b = omega (arith, bit_and-bitwise 0 b, bit_and-bitwise 0 (b / 2))
and_halved (suc a) b = omega (
  arith,
  bit_and-bitwise (suc a) b,
  bit_and-bitwise (suc a / 2) (b / 2),
  digits_halved (λ y. 0) min a b,
)

pub or_halved : (a b : ℕ) → bit_or a b ≡ bit_or (a / 2) (b / 2) * 2 + max (a % 2) (b % 2)
or_halved zero b = omega (arith, bit_or-bitwise 0 b, bit_or-bitwise 0 (b / 2))
or_halved (suc a) b = omega (
  arith,
  bit_or-bitwise (suc a) b,
  bit_or-bitwise (suc a / 2) (b / 2),
  digits_halved (λ y. y) max a b,
)

and-zero : (n a : ℕ) → a ≤ n → bit_and a 0 ≡ 0
and-zero n zero h = refl
and-zero zero (suc a) h = absurd (omega arith)
and-zero (suc n) (suc a) h =
    omega (arith, and_halved (suc a) 0, and-zero n (suc a / 2) (omega arith))

or-zero : (n a : ℕ) → a ≤ n → bit_or a 0 ≡ a
or-zero n zero h = refl
or-zero zero (suc a) h = absurd (omega arith)
or-zero (suc n) (suc a) h = omega (arith, or_halved (suc a) 0, or-zero n (suc a / 2) (omega arith))

-- The mask of bit `k`.
abbrev pub bit : ℕ → ℕ
bit zero = 1
bit (suc k) = bit k * 2

-- `state |= v`, `state &= ~v` and `(state & v) != 0`.
unfoldable pub set_state : ℕ → ℕ → ℕ
set_state s v = bit_or s v

-- On unsigned words `s & ~v` is `s` less the bits of `s & v`.
unfoldable pub clear_state : ℕ → ℕ → ℕ
clear_state s v = s - bit_and s v

unfoldable pub check_state : ℕ → ℕ → Bool
check_state s v = not (bit_and s v == 0)

and_low : (a : ℕ) → bit_and a 1 ≡ a % 2
and_low a = omega (arith, and_halved a 1, and-zero (a / 2) (a / 2) (omega arith))

or_low : (a : ℕ) → bit_or a 1 ≡ a / 2 * 2 + 1
or_low a = omega (arith, or_halved a 1, or-zero (a / 2) (a / 2) (omega arith))

and_high : (k a : ℕ) → bit_and a (bit (suc k)) ≡ bit_and (a / 2) (bit k) * 2
and_high k a =
    let e : bit k * 2 / 2 ≡ bit k = omega arith in
    omega (arith, and_halved a (bit k * 2), ap (bit_and (a / 2)) e)

or_high : (k a : ℕ) → bit_or a (bit (suc k)) ≡ bit_or (a / 2) (bit k) * 2 + a % 2
or_high k a =
    let e : bit k * 2 / 2 ≡ bit k = omega arith in
    omega (arith, or_halved a (bit k * 2), ap (bit_or (a / 2)) e)

and-le : (k a : ℕ) → bit_and a (bit k) ≤ a
and-le zero a = omega (arith, and_low a)
and-le (suc k) a = omega (arith, and_high k a, and-le k (a / 2))

-- After `|=` exactly the bit of the mask is set as well; after `&= ~` exactly it is not.
pub check-set :
    (k j s : ℕ) → check_state (set_state s (bit k)) (bit j) ≡ (k == j || check_state s (bit j))
unfolding check_state set_state
check-set zero zero s = ground (arith, or_low s, and_low (bit_or s 1))
check-set zero (suc j) s =
    let e : bit_or s 1 / 2 ≡ s / 2 = omega (arith, or_low s) in
    ground (arith, ap (λ t. bit_and t (bit j)) e, and_high j s, and_high j (bit_or s 1))
check-set (suc k) zero s = ground (arith, or_high k s, and_low s, and_low (bit_or s (bit (suc k))))
check-set (suc k) (suc j) s =
    let e : bit_or s (bit (suc k)) / 2 ≡ bit_or (s / 2) (bit k) = omega (arith, or_high k s) in
    ground (
      arith,
      check-set k j (s / 2),
      ap (λ t. bit_and t (bit j)) e,
      and_high j s,
      and_high j (bit_or s (bit (suc k))),
    )

pub check-clear :
    (k j s : ℕ)
    → check_state (clear_state s (bit k)) (bit j) ≡ (not (k == j) && check_state s (bit j))
unfolding check_state clear_state
check-clear zero zero s = ground (arith, and_low s, and_low (s - bit_and s 1))
check-clear zero (suc j) s =
    let e : (s - bit_and s 1) / 2 ≡ s / 2 = omega (arith, and_low s) in
    ground (arith, ap (λ t. bit_and t (bit j)) e, and_high j s, and_high j (s - bit_and s 1))
check-clear (suc k) zero s =
    ground (arith, and_high k s, and-le k (s / 2), and_low s, and_low (s - bit_and s (bit (suc k))))
check-clear (suc k) (suc j) s =
    let e : (s - bit_and s (bit (suc k))) / 2 ≡ s / 2 - bit_and (s / 2) (bit k) =
      omega (arith, and_high k s, and-le k (s / 2)) in
    ground (
      arith,
      check-clear k j (s / 2),
      ap (λ t. bit_and t (bit j)) e,
      and_high j s,
      and_high j (s - bit_and s (bit (suc k))),
    )

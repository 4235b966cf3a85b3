-- ===== src/Common/Bits.antt =====
-- `&` distributes over `^`, and `^` stays within a width. The native operations stand for a
-- recursion on binary digits; the first lemmas turn it into one equation for the lowest digit.
use Prim.Native.Nat.{
  ℕ, zero, suc, ◌+◌, ◌*◌, ◌/◌, ◌%◌, ◌^◌, ◌≤◌, ◌<◌, min, max, bit_and, bit_or, bit_xor, digits,
  differ, bit_and-bitwise, bit_xor-bitwise, bit_or-bitwise,
}
use mathlib.Core.Path.{◌≡◌, refl}
use mathlib.Core.Logic.{◌⊎◌}
use native.Mathlib.Nat.{pow-suc}
use native.Mathlib.Omega.{arith}

module _ (z : ℕ → ℕ) (f : ℕ → ℕ → ℕ) where
  -- Any two counts that cover the first number give the same digits.
  digits-covered : (n m a b : ℕ) → a ≤ n → a ≤ m → digits z f n a b ≡ digits z f m a b
  digits-covered zero zero a b h k = refl
  digits-covered zero (suc m) zero b h k = refl
  digits-covered zero (suc m) (suc a) b h k = elim h [ ]
  digits-covered (suc n) zero zero b h k = refl
  digits-covered (suc n) zero (suc a) b h k = elim k [ ]
  digits-covered (suc n) (suc m) zero b h k = refl
  digits-covered (suc n) (suc m) (suc a) b h k =
      omega (arith, digits-covered n m (suc a / 2) (b / 2) (omega arith) (omega arith))

zero-and : (m : ℕ) → bit_and 0 m ≡ 0
zero-and m = bit_and-bitwise 0 m

and_low : (a b : ℕ) → bit_and a b ≡ bit_and (a / 2) (b / 2) * 2 + min (a % 2) (b % 2)
and_low zero b = omega (arith, bit_and-bitwise 0 b, bit_and-bitwise 0 (b / 2))
and_low (suc a) b = omega (
  arith,
  bit_and-bitwise (suc a) b,
  bit_and-bitwise (suc a / 2) (b / 2),
  digits-covered (λ y. 0) min a (suc a / 2) (suc a / 2) (b / 2) (omega arith) (omega arith),
)

-- The exclusive or of two binary digits, as a number.
differ_digit : (a b : ℕ) → a < 2 → b < 2 → differ a b ≡ (a + b) % 2
differ_digit zero b ha hb = omega arith
differ_digit (suc zero) zero ha hb = refl
differ_digit (suc zero) (suc zero) ha hb = refl
differ_digit (suc zero) (suc (suc b)) ha hb = absurd (omega arith)
differ_digit (suc (suc a)) b ha hb = absurd (omega arith)

xor_low : (a b : ℕ) → bit_xor a b ≡ bit_xor (a / 2) (b / 2) * 2 + (a % 2 + b % 2) % 2
xor_low zero b = omega (arith, bit_xor-bitwise 0 b, bit_xor-bitwise 0 (b / 2))
xor_low (suc a) b = omega (
  arith,
  bit_xor-bitwise (suc a) b,
  bit_xor-bitwise (suc a / 2) (b / 2),
  differ_digit (suc a % 2) (b % 2) (omega arith) (omega arith),
  digits-covered (λ y. y) differ a (suc a / 2) (suc a / 2) (b / 2) (omega arith) (omega arith),
)

-- Two numbers are equal when their lowest digits and their halves are.
eq_of_low : (a b : ℕ) → a / 2 ≡ b / 2 → a % 2 ≡ b % 2 → a ≡ b
eq_of_low a b h l = omega arith

digit-cases : (a : ℕ) → (a % 2 ≡ 0) ⊎ (a % 2 ≡ 1)
digit-cases a = omega arith

low_digit :
    (a b m : ℕ) → min ((a + b) % 2) (m % 2) ≡ (min (a % 2) (m % 2) + min (b % 2) (m % 2)) % 2
low_digit a b m = ground (arith, digit-cases a, digit-cases b, digit-cases m)

and-half : (a b : ℕ) → bit_and a b / 2 ≡ bit_and (a / 2) (b / 2)
and-half a b = omega (arith, and_low a b)

and-digit : (a b : ℕ) → bit_and a b % 2 ≡ min (a % 2) (b % 2)
and-digit a b = omega (arith, and_low a b)

xor-half : (a b : ℕ) → bit_xor a b / 2 ≡ bit_xor (a / 2) (b / 2)
xor-half a b = omega (arith, xor_low a b)

xor-digit : (a b : ℕ) → bit_xor a b % 2 ≡ (a + b) % 2
xor-digit a b = omega (arith, xor_low a b)

-- One digit of the law, given the law for the halves.
and-xor_step :
    (a b m : ℕ)
    → bit_and (bit_xor (a / 2) (b / 2)) (m / 2)
      ≡ bit_xor (bit_and (a / 2) (m / 2)) (bit_and (b / 2) (m / 2))
    → bit_and (bit_xor a b) m ≡ bit_xor (bit_and a m) (bit_and b m)
and-xor_step a b m ih = eq_of_low _ _ halves digits_agree
  where
    halves : bit_and (bit_xor a b) m / 2 ≡ bit_xor (bit_and a m) (bit_and b m) / 2
    halves =
        rw
          (
            and-half (bit_xor a b) m,
            xor-half a b,
            xor-half (bit_and a m) (bit_and b m),
            and-half a m,
            and-half b m,
          )
          ih

    digits_agree : bit_and (bit_xor a b) m % 2 ≡ bit_xor (bit_and a m) (bit_and b m) % 2
    digits_agree = omega (
      arith,
      and-digit (bit_xor a b) m,
      xor-digit a b,
      xor-digit (bit_and a m) (bit_and b m),
      and-digit a m,
      and-digit b m,
      low_digit a b m,
    )

and-xor_upto :
    (n a b m : ℕ) → a ≤ n → b ≤ n → bit_and (bit_xor a b) m ≡ bit_xor (bit_and a m) (bit_and b m)
and-xor_upto zero zero zero m h k = rw zero-and
and-xor_upto zero zero (suc b) m h k = elim k [ ]
and-xor_upto zero (suc a) b m h k = elim h [ ]
and-xor_upto (suc n) a b m h k =
    and-xor_step a b m (and-xor_upto n (a / 2) (b / 2) (m / 2) (omega arith) (omega arith))

pub and-xor : (a b m : ℕ) → bit_and (bit_xor a b) m ≡ bit_xor (bit_and a m) (bit_and b m)
and-xor a b m = and-xor_upto (a + b) a b m (omega arith) (omega arith)

-- An exclusive or of two `k`-bit numbers has `k` bits.
pub xor-lt : (k a b : ℕ) → a < 2 ^ k → b < 2 ^ k → bit_xor a b < 2 ^ k
xor-lt zero zero zero h l = h
xor-lt zero zero (suc b) h l = absurd (omega arith)
xor-lt zero (suc a) b h l = absurd (omega arith)
xor-lt (suc k) a b h l = omega (
  arith,
  pow-suc 2 k,
  xor_low a b,
  xor-lt k (a / 2) (b / 2) (omega (arith, pow-suc 2 k)) (omega (arith, pow-suc 2 k)),
)

or_low : (a b : ℕ) → bit_or a b ≡ bit_or (a / 2) (b / 2) * 2 + max (a % 2) (b % 2)
or_low zero b = omega (arith, bit_or-bitwise 0 b, bit_or-bitwise 0 (b / 2))
or_low (suc a) b = omega (
  arith,
  bit_or-bitwise (suc a) b,
  bit_or-bitwise (suc a / 2) (b / 2),
  digits-covered (λ y. y) max a (suc a / 2) (suc a / 2) (b / 2) (omega arith) (omega arith),
)

pub or-lt : (k a b : ℕ) → a < 2 ^ k → b < 2 ^ k → bit_or a b < 2 ^ k
or-lt zero zero zero h l = h
or-lt zero zero (suc b) h l = absurd (omega arith)
or-lt zero (suc a) b h l = absurd (omega arith)
or-lt (suc k) a b h l = omega (
  arith,
  pow-suc 2 k,
  or_low a b,
  or-lt k (a / 2) (b / 2) (omega (arith, pow-suc 2 k)) (omega (arith, pow-suc 2 k)),
)

pub and-lt : (k a b : ℕ) → a < 2 ^ k → bit_and a b < 2 ^ k
and-lt zero zero b h = omega (arith, zero-and b)
and-lt zero (suc a) b h = absurd (omega arith)
and-lt (suc k) a b h =
    omega (arith, pow-suc 2 k, and_low a b, and-lt k (a / 2) (b / 2) (omega (arith, pow-suc 2 k)))

-- ===== src/Base/Bits.antt =====
-- Bit maps as native numbers: or, and, and-not, and what each does with a bit.
use Prim.Native.Nat.{ℕ, zero, suc, ◌+◌, ◌*◌, ◌/◌, ◌%◌, ◌^◌, ◌<◌}
use mathlib.Core.Path.{◌≡◌, refl, sym, ap, ◌∙◌}
use mathlib.Core.Bool.{Bool, true, false, not, ◌&&◌, ◌||◌}
use mathlib.Core.Logic.{inl, inr, ◌≢◌}
use native.Mathlib.Omega.{arith, pow_step}
use cr_lte_modem.Base.Tests.{◌==◌, if◌then◌else◌, ==_iff, Bool-cases}

-- `x | y`, `x & y` and `x & ~y` on `w` bits
unfoldable pub bits_or : ℕ → ℕ → ℕ → ℕ
bits_or zero x y = 0
bits_or (suc w) x y =
    let rest = bits_or w (x / 2) (y / 2) in 2 * rest + (if x % 2 == 1 || y % 2 == 1 then 1 else 0)

unfoldable pub bits_and : ℕ → ℕ → ℕ → ℕ
bits_and zero x y = 0
bits_and (suc w) x y =
    let rest = bits_and w (x / 2) (y / 2) in 2 * rest + (if x % 2 == 1 && y % 2 == 1 then 1 else 0)

unfoldable pub bits_and_not : ℕ → ℕ → ℕ → ℕ
bits_and_not zero x y = 0
bits_and_not (suc w) x y =
    let rest = bits_and_not w (x / 2) (y / 2) in
    2 * rest + (if x % 2 == 1 && not (y % 2 == 1) then 1 else 0)

-- one bit of a number
unfoldable pub bit : ℕ → ℕ → Bool
bit zero x = x % 2 == 1
bit (suc k) x = bit k (x / 2)

abbrev digit : Bool → ℕ
digit c = if c then 1 else 0

low_bit : (r : ℕ) (c : Bool) → ((2 * r + digit c) % 2 == 1) ≡ c
low_bit r true = ground arith
low_bit r false = ground arith

high_bits : (r : ℕ) (c : Bool) → (2 * r + digit c) / 2 ≡ r
high_bits r true = omega arith
high_bits r false = omega arith

-- A bit of `x | y` is one of either.
pub bit-bits_or : (w k x y : ℕ) → k < w → bit k (bits_or w x y) ≡ (bit k x || bit k y)
unfolding bits_or bit
bit-bits_or zero k x y h = absurd (omega arith)
bit-bits_or (suc w) zero x y h = low_bit (bits_or w (x / 2) (y / 2)) (x % 2 == 1 || y % 2 == 1)
bit-bits_or (suc w) (suc k) x y h =
    ap (bit k) (high_bits (bits_or w (x / 2) (y / 2)) (x % 2 == 1 || y % 2 == 1))
    ∙ bit-bits_or w k (x / 2) (y / 2) (omega (arith, h))

-- A bit of `x & y` is one of both.
pub bit-bits_and : (w k x y : ℕ) → k < w → bit k (bits_and w x y) ≡ (bit k x && bit k y)
unfolding bits_and bit
bit-bits_and zero k x y h = absurd (omega arith)
bit-bits_and (suc w) zero x y h = low_bit (bits_and w (x / 2) (y / 2)) (x % 2 == 1 && y % 2 == 1)
bit-bits_and (suc w) (suc k) x y h =
    ap (bit k) (high_bits (bits_and w (x / 2) (y / 2)) (x % 2 == 1 && y % 2 == 1))
    ∙ bit-bits_and w k (x / 2) (y / 2) (omega (arith, h))

-- A bit of `x & ~y` is one of `x` and none of `y`.
pub bit-bits_and_not :
    (w k x y : ℕ) → k < w → bit k (bits_and_not w x y) ≡ (bit k x && not (bit k y))
unfolding bits_and_not bit
bit-bits_and_not zero k x y h = absurd (omega arith)
bit-bits_and_not (suc w) zero x y h =
    low_bit (bits_and_not w (x / 2) (y / 2)) (x % 2 == 1 && not (y % 2 == 1))
bit-bits_and_not (suc w) (suc k) x y h =
    ap (bit k) (high_bits (bits_and_not w (x / 2) (y / 2)) (x % 2 == 1 && not (y % 2 == 1)))
    ∙ bit-bits_and_not w k (x / 2) (y / 2) (omega (arith, h))

-- A number with a bit is not 0.
bit-zero : (k : ℕ) → bit k 0 ≡ false
unfolding bit
bit-zero zero = refl
bit-zero (suc k) = bit-zero k

pub bit-not_zero : (k x : ℕ) → bit k x ≡ true → (x == 0) ≡ false
bit-not_zero k x h = elim (Bool-cases (x == 0)) [
  | inr n ↦ n
  | inl z ↦ absurd (clash (sym h ∙ ap (bit k) ((==_iff x 0).0 z) ∙ bit-zero k))
]
  where
    clash : true ≢ false
    clash e = ground arith

bit_double : (k n : ℕ) → bit (suc k) (2 * n) ≡ bit k n
unfolding bit
bit_double k n = ap (bit k) half
  where
    half : 2 * n / 2 ≡ n
    half = omega arith

bit_even : (n : ℕ) → bit 0 (2 * n) ≡ false
unfolding bit
bit_even n = ground arith

bit_one : (k : ℕ) → bit (suc k) 1 ≡ false
unfolding bit
bit_one k = bit-zero k

suc-== : (k n : ℕ) → (k == n) ≡ (suc k == suc n)
suc-== k n = ground arith

zero-== : (n : ℕ) → false ≡ (0 == suc n)
zero-== n = ground arith

==-zero : (n : ℕ) → false ≡ (suc n == 0)
==-zero n = ground arith

-- `1 << n` has the bit `n` and no other.
pub bit-pow : (k n : ℕ) → bit k (2 ^ n) ≡ (k == n)
unfolding bit
bit-pow zero zero = refl
bit-pow zero (suc n) = ap (bit 0) (pow_step 2 n) ∙ bit_even (2 ^ n) ∙ zero-== n
bit-pow (suc k) zero = bit_one k ∙ ==-zero k
bit-pow (suc k) (suc n) =
    ap (bit (suc k)) (pow_step 2 n) ∙ bit_double k (2 ^ n) ∙ bit-pow k n ∙ suc-== k n

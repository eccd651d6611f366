-- ===== src/Common/Bits.antt =====
-- `^` and `|` of the bit readers and the scrambling, by the lowest binary digit.
use Prim.Native.Nat.{ℕ, zero, suc, ◌+◌, ◌*◌, ◌/◌, ◌%◌, ◌^◌, ◌≤◌, ◌<◌, max, bit_or, bit_xor}
use Prim.Native.Nat.{digits, differ, bitwise, bit_or-bitwise, bit_xor-bitwise}
use mathlib.Core.Path.{◌≡◌, refl, ap}
use native.Mathlib.Omega.{arith}
use native.Mathlib.Nat.{le_refl, pow-suc}

-- A number's digits need no more fuel than the number: what is beyond it changes nothing.
spare_fuel :
    (end : ℕ → ℕ) (op : ℕ → ℕ → ℕ) (x y less more : ℕ)
    → x ≤ less
    → less ≤ more
    → digits end op more x y ≡ digits end op less x y
spare_fuel end op zero y zero zero l m = refl
spare_fuel end op zero y zero (suc more) l m = refl
spare_fuel end op zero y (suc less) zero l m = absurd (omega arith)
spare_fuel end op zero y (suc less) (suc more) l m = refl
spare_fuel end op (suc x) y zero more l m = absurd (omega arith)
spare_fuel end op (suc x) y (suc less) zero l m = absurd (omega arith)
spare_fuel end op (suc x) y (suc less) (suc more) l m =
    let half = spare_fuel end op (suc x / 2) (y / 2) less more (omega arith) (omega arith) in
    rw half

low_digit :
    (end : ℕ → ℕ) (op : ℕ → ℕ → ℕ) (x y : ℕ)
    → let high = bitwise end op (suc x / 2) (y / 2) in
      bitwise end op (suc x) y ≡ high * 2 + op (suc x % 2) (y % 2)
low_digit end op x y =
    let half = spare_fuel end op (suc x / 2) (y / 2) (suc x / 2) x (le_refl _) (omega arith) in
    omega (arith, half)

pub bit_xor_step : (x y : ℕ) → bit_xor x y ≡ bit_xor (x / 2) (y / 2) * 2 + differ (x % 2) (y % 2)
bit_xor_step zero y = simp bit_xor-bitwise (omega arith)
bit_xor_step (suc x) y = simp bit_xor-bitwise (low_digit (λ rest. rest) differ x y)

pub bit_or_step : (x y : ℕ) → bit_or x y ≡ bit_or (x / 2) (y / 2) * 2 + max (x % 2) (y % 2)
bit_or_step zero y = simp bit_or-bitwise (omega arith)
bit_or_step (suc x) y = simp bit_or-bitwise (low_digit (λ rest. rest) max x y)

digit : (x y : ℕ) → x < 2 → y < 2 → (differ (differ x y) y ≡ x) × (differ x y < 2)
digit zero zero p q = omega arith
digit zero (suc zero) p q = omega arith
digit (suc zero) zero p q = omega arith
digit (suc zero) (suc zero) p q = omega arith
digit zero (suc (suc y)) p q = absurd (omega arith)
digit (suc zero) (suc (suc y)) p q = absurd (omega arith)
digit (suc (suc x)) y p q = absurd (omega arith)

-- The width `k` bounds both numbers, so that the recursion ends.
bit_xor_twice_below :
    (k a b : ℕ) → a < 2 ^ k → b < 2 ^ k → (bit_xor (bit_xor a b) b ≡ a) × (bit_xor a b < 2 ^ k)
bit_xor_twice_below zero a b p q =
    let ea : a ≡ 0 = omega arith in let eb : b ≡ 0 = omega arith in rw (ea, eb) (omega arith)
bit_xor_twice_below (suc k) a b p q = ground (
  arith,
  pow-suc 2 k,
  bit_xor_step a b,
  bit_xor_step (bit_xor a b) b,
  digit (a % 2) (b % 2) (omega arith) (omega arith),
  bit_xor_twice_below k (a / 2) (b / 2),
)

-- `^` with the same key twice gives the byte back.
pub bit_xor_twice : (a b : ℕ) → a < 256 → b < 256 → bit_xor (bit_xor a b) b ≡ a
bit_xor_twice a b p q = (bit_xor_twice_below 8 a b p q).0

pub bit_xor-lt : (a b : ℕ) → a < 256 → b < 256 → bit_xor a b < 256
bit_xor-lt a b p q = (bit_xor_twice_below 8 a b p q).1

zero-bit_or : (b : ℕ) → bit_or 0 b ≡ b
zero-bit_or b = bit_or-bitwise 0 b

-- `r | (q << k)` is a sum when `r` fits `k` bits.
pub bit_or_fields : (k q r : ℕ) → r < 2 ^ k → bit_or r (q * 2 ^ k) ≡ r + q * 2 ^ k
bit_or_fields zero q r p = let e : r ≡ 0 = omega arith in rw e (omega (arith, zero-bit_or (q * 1)))
bit_or_fields (suc k) q r p = ground (
  arith,
  pow-suc 2 k,
  ap (λ (t : ℕ). q * t) (pow-suc 2 k),
  bit_or_step r (q * 2 ^ suc k),
  bit_or_fields k q (r / 2),
)

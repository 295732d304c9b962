-- ===== src/Base/Bits.antt =====
-- `&`, `|` and `!` on words, as facts about single bits and about low fields.
use Prim.Native.Nat.{
  ℕ, zero, suc, ◌+◌, ◌-◌, ◌*◌, ◌/◌, ◌%◌, ◌^◌, ◌≤◌, ◌<◌, min, max, digits, bit_and, bit_or,
  bit_and-bitwise, bit_or-bitwise,
}
use mathlib.Core.Path.{◌≡◌, refl, ap}
use native.Mathlib.Nat.{pow-suc, one-le-pow, mod-eq_of_lt, div-lt_iff_lt-mul}
use native.Mathlib.Omega.{arith}

module _ (z : ℕ → ℕ) (f : ℕ → ℕ → ℕ) where
  -- The fuel of `digits` does not matter once it covers the first number.
  digits_enough : (m n a b : ℕ) → a ≤ m → a ≤ n → digits z f m a b ≡ digits z f n a b
  digits_enough zero zero a b p q = refl
  digits_enough (suc m) (suc n) zero b p q = refl
  digits_enough (suc m) zero zero b p q = refl
  digits_enough zero (suc n) zero b p q = refl
  digits_enough zero (suc n) (suc a) b p q = absurd (omega arith)
  digits_enough (suc m) zero (suc a) b p q = absurd (omega arith)
  digits_enough (suc m) (suc n) (suc a) b p q =
      ap (λ (t : ℕ). t * 2 + f (suc a % 2) (b % 2))
        (digits_enough m n (suc a / 2) (b / 2) (omega arith) (omega arith))

-- The lowest bit of `|` and `&`, and the rest.
pub bit_or_lowest : (a b : ℕ) → bit_or a b ≡ bit_or (a / 2) (b / 2) * 2 + max (a % 2) (b % 2)
bit_or_lowest zero b = simp bit_or-bitwise (omega arith)
bit_or_lowest (suc a) b = simp bit_or-bitwise (
    omega (
      arith,
      digits_enough (λ y. y) max a (suc a / 2) (suc a / 2) (b / 2) (omega arith) (omega arith),
    ))

pub bit_and_lowest : (a b : ℕ) → bit_and a b ≡ bit_and (a / 2) (b / 2) * 2 + min (a % 2) (b % 2)
bit_and_lowest zero b = simp bit_and-bitwise (omega arith)
bit_and_lowest (suc a) b = simp bit_and-bitwise (
    omega (
      arith,
      digits_enough (λ y. 0) min a (suc a / 2) (suc a / 2) (b / 2) (omega arith) (omega arith),
    ))

-- Bit `k` of `a`, as 0 or 1.
abbrev pub bit : ℕ → ℕ → ℕ
bit zero a = a % 2
bit (suc k) a = bit k (a / 2)

pub bit-bit_or : (k a b : ℕ) → bit k (bit_or a b) ≡ max (bit k a) (bit k b)
bit-bit_or zero a b = omega (arith, bit_or_lowest a b)
bit-bit_or (suc k) a b = rw half (bit-bit_or k (a / 2) (b / 2))
  where
    half : bit_or a b / 2 ≡ bit_or (a / 2) (b / 2)
    half = omega (arith, bit_or_lowest a b)

pub bit-bit_and : (k a b : ℕ) → bit k (bit_and a b) ≡ min (bit k a) (bit k b)
bit-bit_and zero a b = omega (arith, bit_and_lowest a b)
bit-bit_and (suc k) a b = rw half (bit-bit_and k (a / 2) (b / 2))
  where
    half : bit_and a b / 2 ≡ bit_and (a / 2) (b / 2)
    half = omega (arith, bit_and_lowest a b)

pub bit-le-one : (k a : ℕ) → bit k a ≤ 1
bit-le-one zero a = omega arith
bit-le-one (suc k) a = bit-le-one k (a / 2)

-- `!m` on words of `w` bits.
abbrev pub bit_not : ℕ → ℕ → ℕ
bit_not w m = 2 ^ w - 1 - m

pub bit-bit_not : (w k m : ℕ) → k < w → m < 2 ^ w → bit k (bit_not w m) ≡ 1 - bit k m
bit-bit_not zero k m h p = absurd (omega arith)
bit-bit_not (suc w) zero m h p = omega (arith, pow-suc 2 w, one-le-pow w 2)
bit-bit_not (suc w) (suc k) m h p =
    rw half (bit-bit_not w k (m / 2) (omega arith) (omega (arith, pow-suc 2 w)))
  where
    half : bit_not (suc w) m / 2 ≡ bit_not w (m / 2)
    half = omega (arith, pow-suc 2 w, one-le-pow w 2)

bit_or_zero_fuel : (n a : ℕ) → a ≤ n → bit_or a 0 ≡ a
bit_or_zero_fuel n zero h = refl
bit_or_zero_fuel zero (suc a) h = absurd (omega arith)
bit_or_zero_fuel (suc n) (suc a) h =
    omega (arith, bit_or_lowest (suc a) 0, bit_or_zero_fuel n (suc a / 2) (omega arith))

bit_and_zero_fuel : (n a : ℕ) → a ≤ n → bit_and a 0 ≡ 0
bit_and_zero_fuel n zero h = refl
bit_and_zero_fuel zero (suc a) h = absurd (omega arith)
bit_and_zero_fuel (suc n) (suc a) h =
    omega (arith, bit_and_lowest (suc a) 0, bit_and_zero_fuel n (suc a / 2) (omega arith))

double_shift : (q k : ℕ) → q * 2 ^ suc k ≡ q * 2 ^ k * 2
double_shift q k = omega (arith, ap (λ (t : ℕ). q * t) (pow-suc 2 k))

-- `(q << k) | r` is a sum where `r` has `k` bits.
pub bit_or-shift : (k q r : ℕ) → r < 2 ^ k → bit_or (q * 2 ^ k) r ≡ q * 2 ^ k + r
bit_or-shift zero q r h = ground (arith, bit_or_zero_fuel q q)
bit_or-shift (suc k) q r h = ground (
  arith,
  bit_or_lowest (q * 2 ^ suc k) r,
  double_shift q k,
  pow-suc 2 k,
  bit_or-shift k q (r / 2),
)

and_low_of_split : (k q r : ℕ) → r < 2 ^ k → bit_and (q * 2 ^ k + r) (2 ^ k - 1) ≡ r
and_low_of_split zero q r h = ground (arith, bit_and_zero_fuel (q + r) (q + r))
and_low_of_split (suc k) q r h = ground (
  arith,
  bit_and_lowest (q * 2 ^ suc k + r) (2 ^ suc k - 1),
  double_shift q k,
  pow-suc 2 k,
  one-le-pow k 2,
  and_low_of_split k q (r / 2),
)

-- A mask of `k` low ones gives the remainder.
pub bit_and_low : (k a : ℕ) → bit_and a (2 ^ k - 1) ≡ a % 2 ^ k
bit_and_low k a = ground (arith, one-le-pow k 2, and_low_of_split k (a / 2 ^ k) (a % 2 ^ k))

and_high_of_split :
    (k m q r : ℕ)
    → q < 2 ^ m
    → r < 2 ^ k
    → bit_and (q * 2 ^ k + r) ((2 ^ m - 1) * 2 ^ k) ≡ q * 2 ^ k
and_high_of_split zero m q r g h = ground (arith, bit_and_low m q, mod-eq_of_lt g)
and_high_of_split (suc k) m q r g h = ground (
  arith,
  bit_and_lowest (q * 2 ^ suc k + r) ((2 ^ m - 1) * 2 ^ suc k),
  double_shift q k,
  double_shift (2 ^ m - 1) k,
  pow-suc 2 k,
  and_high_of_split k m q (r / 2),
)

-- `a & !(2 ^ k - 1)` on words of `m + k` bits rounds down to a multiple of `2 ^ k`.
pub bit_and_high :
    (k m a : ℕ) → a < 2 ^ m * 2 ^ k → bit_and a ((2 ^ m - 1) * 2 ^ k) ≡ a / 2 ^ k * 2 ^ k
bit_and_high k m a h = ground (
  arith,
  one-le-pow k 2,
  and_high_of_split k m (a / 2 ^ k) (a % 2 ^ k)
      ((div-lt_iff_lt-mul (one-le-pow k 2 (omega arith))).1 h),
)

-- `|` does not depend on the order.
or_comm_fuel : (n a b : ℕ) → a ≤ n → b ≤ n → bit_or a b ≡ bit_or b a
or_comm_fuel zero zero zero p q = refl
or_comm_fuel zero zero (suc b) p q = absurd (omega arith)
or_comm_fuel zero (suc a) b p q = absurd (omega arith)
or_comm_fuel (suc n) a b p q = omega (
  arith,
  bit_or_lowest a b,
  bit_or_lowest b a,
  or_comm_fuel n (a / 2) (b / 2) (omega arith) (omega arith),
)

pub bit_or_comm : (a b : ℕ) → bit_or a b ≡ bit_or b a
bit_or_comm a b = or_comm_fuel (a + b) a b (omega arith) (omega arith)

-- `|` stays within a width.
pub bit_or-lt : (w a b : ℕ) → a < 2 ^ w → b < 2 ^ w → bit_or a b < 2 ^ w
bit_or-lt zero a b p q = ground (arith, bit_or_zero_fuel a a)
bit_or-lt (suc w) a b p q = omega (
  arith,
  pow-suc 2 w,
  bit_or_lowest a b,
  bit_or-lt w (a / 2) (b / 2) (omega (arith, pow-suc 2 w)) (omega (arith, pow-suc 2 w)),
)

-- A mask of one bit.
pub bit_and-pow : (j a : ℕ) → bit_and a (2 ^ j) ≡ bit j a * 2 ^ j
bit_and-pow zero a = omega (arith, bit_and_lowest a 1, bit_and_zero_fuel (a / 2) (a / 2))
bit_and-pow (suc j) a = ground (
  arith,
  bit_and_lowest a (2 ^ suc j),
  pow-suc 2 j,
  bit_and-pow j (a / 2),
  double_shift (bit j (a / 2)) j,
)

-- ===== src/Prelude/Digits.antt =====
-- The binary digits of `&`, `|` and `^`, at every width.
use Prim.Native.Nat.{ℕ, zero, suc, ◌+◌, ◌*◌, ◌/◌, ◌%◌, ◌^◌, ◌≤◌, ◌<◌, min, max, differ}
use Prim.Native.Nat.{bit_and, bit_or, bit_xor, bitwise, digits}
use Prim.Native.Nat.{bit_and-bitwise, bit_or-bitwise, bit_xor-bitwise}
use mathlib.Core.Path.{◌≡◌, refl}
use native.Mathlib.Nat.{pow-suc}
use native.Mathlib.Omega.{arith}

-- `end b` is the result where the first number has run out.
module _ (end : ℕ → ℕ) (digit : ℕ → ℕ → ℕ)
    (ends : (b : ℕ) → end b ≡ end (b / 2) * 2 + digit 0 (b % 2)) where
  -- Rounds beyond the digits of `a` change nothing.
  enough_digits : (a n m b : ℕ) → a ≤ n → a ≤ m → digits end digit n a b ≡ digits end digit m a b
  enough_digits a zero zero b p q = refl
  enough_digits zero zero (suc m) b p q = refl
  enough_digits zero (suc n) zero b p q = refl
  enough_digits zero (suc n) (suc m) b p q = refl
  enough_digits (suc a) zero m b p q = absurd (omega arith)
  enough_digits (suc a) (suc n) zero b p q = absurd (omega arith)
  enough_digits (suc a) (suc n) (suc m) b p q =
      omega (arith, enough_digits (suc a / 2) n m (b / 2) (omega arith) (omega arith))

  bitwise-lowest :
      (a b : ℕ)
      → bitwise end digit a b ≡ bitwise end digit (a / 2) (b / 2) * 2 + digit (a % 2) (b % 2)
  bitwise-lowest zero b = ends b
  bitwise-lowest (suc a) b =
      omega (arith, enough_digits (suc a / 2) a (suc a / 2) (b / 2) (omega arith) (omega arith))

-- Each operation goes by its lowest digits.
pub bit_and-lowest : (a b : ℕ) → bit_and a b ≡ bit_and (a / 2) (b / 2) * 2 + min (a % 2) (b % 2)
bit_and-lowest a b = omega (
  arith,
  bit_and-bitwise a b,
  bit_and-bitwise (a / 2) (b / 2),
  bitwise-lowest (λ b. zero) min (λ b. omega arith) a b,
)

pub bit_or-lowest : (a b : ℕ) → bit_or a b ≡ bit_or (a / 2) (b / 2) * 2 + max (a % 2) (b % 2)
bit_or-lowest a b = omega (
  arith,
  bit_or-bitwise a b,
  bit_or-bitwise (a / 2) (b / 2),
  bitwise-lowest (λ b. b) max (λ b. omega arith) a b,
)

pub bit_xor-lowest : (a b : ℕ) → bit_xor a b ≡ bit_xor (a / 2) (b / 2) * 2 + differ (a % 2) (b % 2)
bit_xor-lowest a b = omega (
  arith,
  bit_xor-bitwise a b,
  bit_xor-bitwise (a / 2) (b / 2),
  bitwise-lowest (λ b. b) differ (λ b. omega arith) a b,
)

differ_bit : (a b : ℕ) → differ (a % 2) (b % 2) ≤ 1
differ_bit a b = bits (a % 2) (b % 2) (omega arith) (omega arith)
  where
    bits : (x y : ℕ) → x < 2 → y < 2 → differ x y ≤ 1
    bits zero y p q = omega arith
    bits (suc zero) zero p q = omega arith
    bits (suc zero) (suc y) p q = omega arith
    bits (suc (suc x)) y p q = absurd (omega arith)

bit_or_nil : (a b : ℕ) → a < 1 → b < 1 → bit_or a b < 1
bit_or_nil zero zero p q = omega (arith, bit_or-bitwise 0 0)
bit_or_nil zero (suc b) p q = absurd (omega arith)
bit_or_nil (suc a) b p q = absurd (omega arith)

bit_xor_nil : (a b : ℕ) → a < 1 → b < 1 → bit_xor a b < 1
bit_xor_nil zero zero p q = omega (arith, bit_xor-bitwise 0 0)
bit_xor_nil zero (suc b) p q = absurd (omega arith)
bit_xor_nil (suc a) b p q = absurd (omega arith)

halved : (k a : ℕ) → a < 2 ^ suc k → a / 2 < 2 ^ k
halved k a h = omega (arith, pow-suc 2 k)

-- Results have no more digits than the operands.
pub bit_or-lt : (k a b : ℕ) → a < 2 ^ k → b < 2 ^ k → bit_or a b < 2 ^ k
bit_or-lt zero a b p q = bit_or_nil a b p q
bit_or-lt (suc k) a b p q = omega (
  arith,
  pow-suc 2 k,
  bit_or-lowest a b,
  bit_or-lt k (a / 2) (b / 2) (halved k a p) (halved k b q),
)

pub bit_xor-lt : (k a b : ℕ) → a < 2 ^ k → b < 2 ^ k → bit_xor a b < 2 ^ k
bit_xor-lt zero a b p q = bit_xor_nil a b p q
bit_xor-lt (suc k) a b p q = omega (
  arith,
  pow-suc 2 k,
  bit_xor-lowest a b,
  differ_bit a b,
  bit_xor-lt k (a / 2) (b / 2) (halved k a p) (halved k b q),
)

bit_and-le_below : (n a b : ℕ) → a ≤ n → bit_and a b ≤ b
bit_and-le_below n zero b h = omega (arith, bit_and-bitwise 0 b)
bit_and-le_below zero (suc a) b h = absurd (omega arith)
bit_and-le_below (suc n) (suc a) b h =
    omega (arith, bit_and-lowest (suc a) b, bit_and-le_below n (suc a / 2) (b / 2) (omega arith))

pub bit_and-le : (a b : ℕ) → bit_and a b ≤ b
bit_and-le a b = bit_and-le_below a a b (omega arith)

-- The binary digit at a place.
abbrev pub bit_at : ℕ → ℕ → ℕ
bit_at zero a = a % 2
bit_at (suc k) a = bit_at k (a / 2)

pub bit_at-bit_and : (k a b : ℕ) → bit_at k (bit_and a b) ≡ min (bit_at k a) (bit_at k b)
bit_at-bit_and zero a b = omega (arith, bit_and-lowest a b)
bit_at-bit_and (suc k) a b =
    let half : bit_and a b / 2 ≡ bit_and (a / 2) (b / 2) = omega (arith, bit_and-lowest a b) in
    rw half (bit_at-bit_and k (a / 2) (b / 2))

pub bit_at-bit_or : (k a b : ℕ) → bit_at k (bit_or a b) ≡ max (bit_at k a) (bit_at k b)
bit_at-bit_or zero a b = omega (arith, bit_or-lowest a b)
bit_at-bit_or (suc k) a b =
    let half : bit_or a b / 2 ≡ bit_or (a / 2) (b / 2) = omega (arith, bit_or-lowest a b) in
    rw half (bit_at-bit_or k (a / 2) (b / 2))

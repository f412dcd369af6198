-- ===== src/Prelude/Bits.antt =====
-- `|` of two values whose set bits lie apart is their sum, at every width.
use Prim.Native.Nat.{ℕ, zero, suc, ◌+◌, ◌*◌, ◌/◌, ◌^◌, ◌<◌}
use Prim.Native.Nat.{bit_or, bit_or-bitwise}
use mathlib.Core.Path.{◌≡◌, ap}
use native.Mathlib.Nat.{pow-suc}
use native.Mathlib.Omega.{arith}
use futility.Prelude.Digits.{bit_or-lowest}

-- `low | (high << k)` where `low` has `k` bits.
pub bit_or-shifted : (k low high : ℕ) → low < 2 ^ k → bit_or low (high * 2 ^ k) ≡ low + high * 2 ^ k
bit_or-shifted zero low high h = ground (arith, bit_or-bitwise 0 high)
bit_or-shifted (suc k) low high h = ground (
  arith,
  pow-suc 2 k,
  ap (λ (t : ℕ). high * t) (pow-suc 2 k),
  bit_or-lowest low (high * 2 ^ suc k),
  bit_or-shifted k (low / 2) high,
)

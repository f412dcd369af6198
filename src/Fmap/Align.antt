-- ===== src/Fmap/Align.antt =====
-- Alignment of offsets to powers of two.
use futility.Prelude.{ℕ, zero, suc, ◌+◌, ◌*◌, ◌/◌, ◌%◌, ◌^◌, ◌<◌, ◌≡◌, ◌≢◌, arith, ap}
use native.Mathlib.Nat.{pow-suc, div-add-mod, mul-le-mul_left, mul-mod_right, mod-lt}
use native.Mathlib.Decide.{dec_lt}

pub lt-pow : (k : ℕ) → k < 2 ^ k
lt-pow zero = omega arith
lt-pow (suc k) = omega (arith, lt-pow k, pow-suc 2 k)

pub half-pow : (k : ℕ) → 2 ^ suc k / 2 ≡ 2 ^ k
half-pow k = omega (arith, pow-suc 2 k)

pub odd_multiple : (o a : ℕ) → o % (a * 2) ≡ a → o ≡ a + o / (a * 2) * (a * 2)
odd_multiple o a h = grind arith

-- A multiple of `a` that is no multiple of `a * 2` is an odd multiple.
pub mod_double : (o a : ℕ) → 0 < a → o % a ≡ 0 → o % (a * 2) ≢ 0 → o % (a * 2) ≡ a
mod_double o a p h ne = quotients (o / a) (o / (a * 2)) (div-add-mod o a) (div-add-mod o (a * 2))
  where
    quotients : (q r : ℕ) → a * q + o % a ≡ o → a * 2 * r + o % (a * 2) ≡ o → o % (a * 2) ≡ a
    quotients q r eq er = elim (dec_lt q (r * 2 + 1)) [
      | yes lt ↦ absurd (omega (arith, mul-le-mul_left {m = q} {n = r * 2} a (omega arith)))
      | no ge ↦ elim (dec_lt (r * 2 + 1) q) [
        | yes gt ↦ absurd (
            omega (
              arith,
              mod-lt o {m = a * 2} (omega arith),
              mul-le-mul_left {m = r * 2 + 2} {n = q} a (omega arith),
            ))
        | no le ↦ let odd : q ≡ r * 2 + 1 = omega arith in omega (arith, ap (λ (t : ℕ). a * t) odd)
      ]
    ]

-- An odd multiple is a multiple.
pub odd-multiple-mod : (a k : ℕ) → (a + k * (a * 2)) % a ≡ 0
odd-multiple-mod a k =
    let factored : a + k * (a * 2) ≡ a * (1 + k * 2) = grind arith in
    rw factored (mul-mod_right a (1 + k * 2))

-- ===== src/Gpt/Fields.antt =====
-- The three fields of the attributes of an entry, bit by bit: what the masks of the getters and of
-- the setters in cgptlib_internal.c do to them.
use futility.Prelude.{ℕ, ◌*◌, ◌/◌, ◌%◌, ◌^◌, ◌<◌, ◌≤◌, ◌<<<◌}
use futility.Prelude.{◌≡◌, refl, arith, bit_and, bit_or, zero, suc, min, max}
use futility.Prelude.Digits.{bit_at, bit_at-bit_and, bit_at-bit_or, bit_and-le}

-- The fields of the attributes, as digits.
abbrev pub priority_of : ℕ → ℕ
priority_of att = att % 16

abbrev pub tries_of : ℕ → ℕ
tries_of att = att / 16 % 16

abbrev pub successful_of : ℕ → ℕ
successful_of att = att / 256 % 2

pub masked_priority : (att : ℕ) → bit_and att 0xf ≡ priority_of att
masked_priority att = omega (
  arith,
  bit_and-le att 0xf,
  bit_at-bit_and 0 att 0xf,
  bit_at-bit_and 1 att 0xf,
  bit_at-bit_and 2 att 0xf,
  bit_at-bit_and 3 att 0xf,
)

pub masked_tries : (att : ℕ) → bit_and att 0xf0 / 16 ≡ tries_of att
masked_tries att = omega (
  arith,
  bit_and-le att 0xf0,
  bit_at-bit_and 4 att 0xf0,
  bit_at-bit_and 5 att 0xf0,
  bit_at-bit_and 6 att 0xf0,
  bit_at-bit_and 7 att 0xf0,
)

pub masked_successful : (att : ℕ) → bit_and att 0x100 / 256 ≡ successful_of att
masked_successful att = omega (arith, bit_and-le att 0x100, bit_at-bit_and 8 att 0x100)

low_digit : (k c : ℕ) → k < 9 → bit_at k (c % 2 ^ 16) ≡ bit_at k c
low_digit zero c h = omega arith
low_digit (suc zero) c h = omega arith
low_digit (suc (suc zero)) c h = omega arith
low_digit (suc (suc (suc zero))) c h = omega arith
low_digit (suc (suc (suc (suc zero)))) c h = omega arith
low_digit (suc (suc (suc (suc (suc zero))))) c h = omega arith
low_digit (suc (suc (suc (suc (suc (suc zero)))))) c h = omega arith
low_digit (suc (suc (suc (suc (suc (suc (suc zero))))))) c h = omega arith
low_digit (suc (suc (suc (suc (suc (suc (suc (suc zero)))))))) c h = omega arith
low_digit (suc (suc (suc (suc (suc (suc (suc (suc (suc k))))))))) c h = absurd (omega arith)

-- `(att & mask) | value`, with a cast to uint16_t between.
abbrev pub mixed : ℕ → ℕ → ℕ → ℕ
mixed att mask value = bit_or (bit_and att mask % 2 ^ 16) value

mixed_digit :
    (k att mask value : ℕ)
    → k < 9
    → bit_at k (mixed att mask value) ≡ max (min (bit_at k att) (bit_at k mask)) (bit_at k value)
mixed_digit k att mask value h = omega (
  arith,
  bit_at-bit_or k (bit_and att mask % 2 ^ 16) value,
  low_digit k (bit_and att mask) h,
  bit_at-bit_and k att mask,
)

-- Fields whose digits agree.
priority_same :
    (x y : ℕ)
    → bit_at 0 x ≡ bit_at 0 y
    → bit_at 1 x ≡ bit_at 1 y
    → bit_at 2 x ≡ bit_at 2 y
    → bit_at 3 x ≡ bit_at 3 y
    → priority_of x ≡ priority_of y
priority_same x y a b c d = omega arith

tries_same :
    (x y : ℕ)
    → bit_at 4 x ≡ bit_at 4 y
    → bit_at 5 x ≡ bit_at 5 y
    → bit_at 6 x ≡ bit_at 6 y
    → bit_at 7 x ≡ bit_at 7 y
    → tries_of x ≡ tries_of y
tries_same x y a b c d =
    omega (arith, priority_same (x / 2 / 2 / 2 / 2) (y / 2 / 2 / 2 / 2) a b c d)

bit_at-le : (k a : ℕ) → bit_at k a ≤ 1
bit_at-le zero a = omega arith
bit_at-le (suc k) a = bit_at-le k (a / 2)

-- A digit that the mask keeps, where the value has none, and one that the value brings.
kept :
    (k att mask value : ℕ)
    → k < 9
    → bit_at k mask ≡ 1
    → bit_at k value ≡ 0
    → bit_at k (mixed att mask value) ≡ bit_at k att
kept k att mask value h m v = omega (arith, mixed_digit k att mask value h, bit_at-le k att)

brought :
    (k att mask value : ℕ)
    → k < 9
    → bit_at k mask ≡ 0
    → bit_at k (mixed att mask value) ≡ bit_at k value
brought k att mask value h m = omega (arith, mixed_digit k att mask value h)

module _ (att p : ℕ) where
  pub priority-priority : priority_of (mixed att 0xfff0 (p % 16)) ≡ p % 16
  priority-priority = omega (
    arith,
    priority_same (mixed att 0xfff0 (p % 16)) (p % 16)
        (brought 0 att 0xfff0 (p % 16) (omega arith) refl)
        (brought 1 att 0xfff0 (p % 16) (omega arith) refl)
        (brought 2 att 0xfff0 (p % 16) (omega arith) refl)
        (brought 3 att 0xfff0 (p % 16) (omega arith) refl),
  )

  pub tries-priority : tries_of (mixed att 0xfff0 (p % 16)) ≡ tries_of att
  tries-priority =
      tries_same (mixed att 0xfff0 (p % 16)) att
        (kept 4 att 0xfff0 (p % 16) (omega arith) refl (omega arith))
        (kept 5 att 0xfff0 (p % 16) (omega arith) refl (omega arith))
        (kept 6 att 0xfff0 (p % 16) (omega arith) refl (omega arith))
        (kept 7 att 0xfff0 (p % 16) (omega arith) refl (omega arith))

  pub successful-priority : successful_of (mixed att 0xfff0 (p % 16)) ≡ successful_of att
  successful-priority = omega (arith, kept 8 att 0xfff0 (p % 16) (omega arith) refl (omega arith))

  abbrev pub nibble : ℕ
  nibble = p % 16 * 16

  pub priority-tries : priority_of (mixed att 0xff0f nibble) ≡ priority_of att
  priority-tries =
      priority_same (mixed att 0xff0f nibble) att
        (kept 0 att 0xff0f nibble (omega arith) refl (omega arith))
        (kept 1 att 0xff0f nibble (omega arith) refl (omega arith))
        (kept 2 att 0xff0f nibble (omega arith) refl (omega arith))
        (kept 3 att 0xff0f nibble (omega arith) refl (omega arith))

  pub tries-tries : tries_of (mixed att 0xff0f nibble) ≡ p % 16
  tries-tries = omega (
    arith,
    tries_same (mixed att 0xff0f nibble) nibble (brought 4 att 0xff0f nibble (omega arith) refl)
        (brought 5 att 0xff0f nibble (omega arith) refl)
        (brought 6 att 0xff0f nibble (omega arith) refl)
        (brought 7 att 0xff0f nibble (omega arith) refl),
  )

  pub successful-tries : successful_of (mixed att 0xff0f nibble) ≡ successful_of att
  successful-tries = omega (arith, kept 8 att 0xff0f nibble (omega arith) refl (omega arith))

pub tries_value : (t : ℕ) → bit_and (t <<< 4) 0xf0 ≡ t % 16 * 16
tries_value t = omega (
  arith,
  bit_and-le (t <<< 4) 0xf0,
  masked_tries (t <<< 4),
  bit_at-bit_and 0 (t <<< 4) 0xf0,
  bit_at-bit_and 1 (t <<< 4) 0xf0,
  bit_at-bit_and 2 (t <<< 4) 0xf0,
  bit_at-bit_and 3 (t <<< 4) 0xf0,
)

-- The successful bit set or cleared, and the other fields then.
module _ (att : ℕ) where
  pub successful-set : successful_of (bit_or att 0x100) ≡ 1
  successful-set = omega (arith, bit_at-bit_or 8 att 0x100)

  pub tries-set : tries_of (bit_or att 0x100) ≡ tries_of att
  tries-set =
      tries_same (bit_or att 0x100) att (omega (arith, bit_at-bit_or 4 att 0x100))
        (omega (arith, bit_at-bit_or 5 att 0x100)) (omega (arith, bit_at-bit_or 6 att 0x100))
        (omega (arith, bit_at-bit_or 7 att 0x100))

  pub priority-set : priority_of (bit_or att 0x100) ≡ priority_of att
  priority-set =
      priority_same (bit_or att 0x100) att (omega (arith, bit_at-bit_or 0 att 0x100))
        (omega (arith, bit_at-bit_or 1 att 0x100)) (omega (arith, bit_at-bit_or 2 att 0x100))
        (omega (arith, bit_at-bit_or 3 att 0x100))

  pub successful-cleared : successful_of (bit_and att 0xfeff) ≡ 0
  successful-cleared = omega (arith, bit_at-bit_and 8 att 0xfeff)

  pub tries-cleared : tries_of (bit_and att 0xfeff) ≡ tries_of att
  tries-cleared =
      tries_same (bit_and att 0xfeff) att (omega (arith, bit_at-bit_and 4 att 0xfeff))
        (omega (arith, bit_at-bit_and 5 att 0xfeff)) (omega (arith, bit_at-bit_and 6 att 0xfeff))
        (omega (arith, bit_at-bit_and 7 att 0xfeff))

  pub priority-cleared : priority_of (bit_and att 0xfeff) ≡ priority_of att
  priority-cleared =
      priority_same (bit_and att 0xfeff) att (omega (arith, bit_at-bit_and 0 att 0xfeff))
        (omega (arith, bit_at-bit_and 1 att 0xfeff)) (omega (arith, bit_at-bit_and 2 att 0xfeff))
        (omega (arith, bit_at-bit_and 3 att 0xfeff))

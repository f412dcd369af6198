-- ===== src/Gpt/Crc32/Bounds.antt =====
-- Crc32 is a 32-bit number, and reads no byte but those that it is given.
use futility.Prelude.{ℕ, zero, suc, ◌+◌, ◌-◌, ◌^◌, ◌<◌, ◌≤◌, ltb, List, [], ◌∷◌, get_or, bit_and}
use futility.Prelude.{bit_xor, ◌>>>◌, if◌then◌else◌, ◌≡◌, refl, arith, Bool, true, false, ap, ◌∙◌}
use futility.Prelude.Memory.{Bytes}
use futility.Prelude.Digits.{bit_xor-lt}
use futility.Gpt.Crc32.{crc32, crc32_bytes, crc32_tab}

all_small : List ℕ → Bool
all_small [] = true
all_small (x ∷ xs) = if ltb x (2 ^ 32) then all_small xs else false

get_or-small : (xs : List ℕ) (i : ℕ) → all_small xs ≡ true → get_or xs i 0 < 2 ^ 32
unfolding all_small
get_or-small [] i h = omega arith
get_or-small (x ∷ xs) zero h = ground arith
get_or-small (x ∷ xs) (suc i) h = get_or-small xs i (ground arith)

tab_small : all_small crc32_tab ≡ true
unfolding all_small crc32_tab
tab_small = refl

crc32_bytes-lt : (b : Bytes) (o n value : ℕ) → value < 2 ^ 32 → crc32_bytes b o n value < 2 ^ 32
unfolding crc32_bytes
crc32_bytes-lt b o zero value h = h
crc32_bytes-lt b o (suc n) value h =
    crc32_bytes-lt b (o + 1) n _
      (bit_xor-lt 32 _ _ (get_or-small crc32_tab _ tab_small) (omega arith))

pub crc32-lt : (b : Bytes) (o n : ℕ) → crc32 b o n < 2 ^ 32
unfolding crc32
crc32-lt b o n = bit_xor-lt 32 _ _ (crc32_bytes-lt b o n (2 ^ 32 - 1) (omega arith)) (omega arith)

crc32_bytes_same :
    (b c : Bytes) (o n value : ℕ)
    → ((i : ℕ) → o ≤ i → i < o + n → b i ≡ c i)
    → crc32_bytes b o n value ≡ crc32_bytes c o n value
unfolding crc32_bytes
crc32_bytes_same b c o zero value h = refl
crc32_bytes_same b c o (suc n) value h =
    ap
      (λ (x : ℕ).
        crc32_bytes b (o + 1) n
          (bit_xor (get_or crc32_tab (bit_and (bit_xor value x) 0xff) 0) (value >>> 8)))
      (h o (omega arith) (omega arith))
    ∙ crc32_bytes_same b c (o + 1) n _ (λ i l u. h i (omega arith) (omega arith))

pub crc32_same : (b c : Bytes) (n : ℕ) → ((i : ℕ) → i < n → b i ≡ c i) → crc32 b 0 n ≡ crc32 c 0 n
unfolding crc32
crc32_same b c n h =
    ap (λ (x : ℕ). bit_xor x (2 ^ 32 - 1))
      (crc32_bytes_same b c 0 n (2 ^ 32 - 1) (λ i l u. h i (omega arith)))

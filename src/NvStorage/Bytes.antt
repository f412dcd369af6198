-- ===== src/NvStorage/Bytes.antt =====
-- The masks of vboot_nvstorage.c on a byte, as arithmetic: each law is checked on all bytes.
use futility.Prelude.{
  ℕ, ◌+◌, ◌-◌, ◌*◌, ◌/◌, ◌%◌, ◌^◌, ◌<◌, ◌==◌, ◌/=◌, if◌then◌else◌, Bool, ◌≡◌, refl, true,
}
use futility.Prelude.{bit_and, bit_or, u8, all_below, all_below_sound, ==_iff}

-- A law on bytes with one small parameter.
check : ℕ → (ℕ → ℕ → Bool) → Bool
check bound law = all_below bound (λ k. all_below 256 (law k))

check_sound :
    (bound : ℕ) (law : ℕ → ℕ → Bool) (k x : ℕ)
    → check bound law ≡ true
    → k < bound
    → x < 256
    → law k x ≡ true
unfolding check
check_sound bound law k x h kh xh =
    all_below_sound 256 (law k) (all_below_sound bound _ h k kh) x xh

flag_bit_table : check 8 (λ k x. (if bit_and x (2 ^ k) /= 0 then 1 else 0) == x / 2 ^ k % 2) ≡ true
unfolding check all_below
flag_bit_table = refl

pub flag_bit :
    (k x : ℕ) → k < 8 → x < 256 → (if bit_and x (2 ^ k) /= 0 then 1 else 0) ≡ x / 2 ^ k % 2
flag_bit k x kh xh = (==_iff _ _).0 (check_sound 8 _ k x flag_bit_table kh xh)

clear_bit_table :
    check 8
      (λ k x. bit_and x (255 - 2 ^ k) == x / (2 ^ k * 2) * (2 ^ k * 2) + 0 * 2 ^ k + x % 2 ^ k)
    ≡ true
unfolding check all_below
clear_bit_table = refl

pub clear_bit :
    (k x : ℕ)
    → k < 8
    → x < 256
    → bit_and x (255 - 2 ^ k) ≡ x / (2 ^ k * 2) * (2 ^ k * 2) + 0 * 2 ^ k + x % 2 ^ k
clear_bit k x kh xh = (==_iff _ _).0 (check_sound 8 _ k x clear_bit_table kh xh)

or_bit_table :
    check 8 (λ k x. u8 (bit_or x (2 ^ k)) == x / (2 ^ k * 2) * (2 ^ k * 2) + 1 * 2 ^ k + x % 2 ^ k)
    ≡ true
unfolding check all_below
or_bit_table = refl

pub or_bit :
    (k x : ℕ)
    → k < 8
    → x < 256
    → u8 (bit_or x (2 ^ k)) ≡ x / (2 ^ k * 2) * (2 ^ k * 2) + 1 * 2 ^ k + x % 2 ^ k
or_bit k x kh xh = (==_iff _ _).0 (check_sound 8 _ k x or_bit_table kh xh)

low_nibble_table : check 16 (λ k x. u8 (bit_or (bit_and x 0xf0) k) == x - x % 16 + k) ≡ true
unfolding check all_below
low_nibble_table = refl

pub put_low_nibble : (k x : ℕ) → k < 16 → x < 256 → u8 (bit_or (bit_and x 0xf0) k) ≡ x - x % 16 + k
put_low_nibble k x kh xh = (==_iff _ _).0 (check_sound 16 _ k x low_nibble_table kh xh)

low_pair_table : check 4 (λ k x. u8 (bit_or (bit_and x 0xfc) k) == x - x % 4 + k) ≡ true
unfolding check all_below
low_pair_table = refl

pub put_low_pair : (k x : ℕ) → k < 4 → x < 256 → u8 (bit_or (bit_and x 0xfc) k) ≡ x - x % 4 + k
put_low_pair k x kh xh = (==_iff _ _).0 (check_sound 4 _ k x low_pair_table kh xh)

high_pair_table :
    check 4 (λ k x. u8 (bit_or (bit_and x 0xcf) (k * 16)) == x - x / 16 % 4 * 16 + k * 16) ≡ true
unfolding check all_below
high_pair_table = refl

pub put_high_pair :
    (k x : ℕ)
    → k < 4
    → x < 256
    → u8 (bit_or (bit_and x 0xcf) (k * 16)) ≡ x - x / 16 % 4 * 16 + k * 16
put_high_pair k x kh xh = (==_iff _ _).0 (check_sound 4 _ k x high_pair_table kh xh)

and_low_nibble_table : all_below 256 (λ x. bit_and x 0xf == x % 16) ≡ true
unfolding all_below
and_low_nibble_table = refl

pub and_low_nibble : (x : ℕ) → x < 256 → bit_and x 0xf ≡ x % 16
and_low_nibble x h = (==_iff _ _).0 (all_below_sound 256 _ and_low_nibble_table x h)

and_low_pair_table : all_below 256 (λ x. bit_and x 0x3 == x % 4) ≡ true
unfolding all_below
and_low_pair_table = refl

pub and_low_pair : (x : ℕ) → x < 256 → bit_and x 0x3 ≡ x % 4
and_low_pair x h = (==_iff _ _).0 (all_below_sound 256 _ and_low_pair_table x h)

and_high_pair_table : all_below 256 (λ x. bit_and x 0x30 == x / 16 % 4 * 16) ≡ true
unfolding all_below
and_high_pair_table = refl

pub and_high_pair : (x : ℕ) → x < 256 → bit_and x 0x30 ≡ x / 16 % 4 * 16
and_high_pair x h = (==_iff _ _).0 (all_below_sound 256 _ and_high_pair_table x h)

and_signature_table : all_below 256 (λ x. bit_and x 0xc0 == x / 64 * 64) ≡ true
unfolding all_below
and_signature_table = refl

pub and_signature : (x : ℕ) → x < 256 → bit_and x 0xc0 ≡ x / 64 * 64
and_signature x h = (==_iff _ _).0 (all_below_sound 256 _ and_signature_table x h)

-- ===== src/Pcr/Digits.antt =====
-- What is printed is read back.
use futility.Prelude.{
  ℕ, suc, ◌<◌, ◌/◌, ◌%◌, ◌≡◌, refl, ap, drop, arith, some, List, [], ◌∷◌, ◌++◌, All, length, true,
  false,
}
use futility.Pcr.Defs.{
  hex_char, is_xdigit, is_space, to_lower, digit_value, parse_hex, parse_digest, skip_space,
  print_digest,
}

-- A character printed is a digit of the value, and no space.
hex_char_lem :
    (n : ℕ)
    → n < 16
    → (is_xdigit (hex_char n) ≡ true)
      × (is_space (hex_char n) ≡ false)
      × (digit_value (to_lower (hex_char n)) ≡ n)
hex_char_lem n h = ground arith

skip_space-print_digest :
    (n : ℕ) (s : List ℕ) → n < 16 → skip_space (hex_char n ∷ s) ≡ hex_char n ∷ s
unfolding skip_space
skip_space-print_digest n s h = rw ((hex_char_lem n h).1) refl

parse_hex-hex_char :
    (v : ℕ) (s : List ℕ) → v < 256 → parse_hex (hex_char (v / 16) ∷ hex_char (v % 16) ∷ s) ≡ some v
unfolding parse_hex
parse_hex-hex_char v s h =
    let high = hex_char_lem (v / 16) (omega arith) in
    let low = hex_char_lem (v % 16) (omega arith) in
    rw (high.0, low.0, high.2, low.2) (ap some (omega arith))

pub parse_digest-zero : (s : List ℕ) → parse_digest 0 s ≡ some []
unfolding parse_digest
parse_digest-zero s = refl

-- One round of parse_digest_or_die.
pub parse_digest-suc :
    (len : ℕ) (s s' : List ℕ) (v : ℕ) (buf : List ℕ)
    → skip_space s ≡ s'
    → parse_hex s' ≡ some v
    → parse_digest len (drop 2 s') ≡ some buf
    → parse_digest (suc len) s ≡ some (v ∷ buf)
unfolding parse_digest
parse_digest-suc len s s' v buf skipped byte rest = ground arith

-- A printed digest is read back, whatever follows it.
pub parse_digest-print_digest :
    (buf rest : List ℕ)
    → All (λ (v : ℕ). v < 256) buf
    → parse_digest (length buf) (print_digest buf ++ rest) ≡ some buf
unfolding print_digest
parse_digest-print_digest [] rest h = parse_digest-zero rest
parse_digest-print_digest (v ∷ buf) rest h =
    parse_digest-suc (length buf) _ _ v buf
      (skip_space-print_digest (v / 16) (hex_char (v % 16) ∷ (print_digest buf ++ rest))
        (omega arith))
      (parse_hex-hex_char v (print_digest buf ++ rest) h.0) (parse_digest-print_digest buf rest h.1)

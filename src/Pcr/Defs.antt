-- ===== src/Pcr/Defs.antt =====
-- cmd_pcr.c. A string is the list of its characters before the zero byte that ends it.
use futility.Prelude.{
  ℕ, zero, suc, ◌+◌, ◌-◌, leb, ltb, ◌==◌, ◌&&◌, ◌||◌, Bool, true, false, Option, none, some, List,
  [], ◌∷◌, ◌++◌,
}
use futility.Prelude.{if◌then◌else◌, take, drop, replicate, u8, ◌<<<◌, ◌/◌, ◌%◌}

-- isxdigit, tolower and isspace on the ASCII characters.
abbrev pub is_xdigit : ℕ → Bool
is_xdigit c = (leb b'0' c && leb c b'9') || (leb b'a' c && leb c b'f') || (leb b'A' c && leb c b'F')

abbrev pub to_lower : ℕ → ℕ
to_lower c = if leb b'A' c && leb c b'Z' then c + 32 else c

abbrev pub is_space : ℕ → Bool
is_space c = (c == 32) || (leb 9 c && leb c 13)

-- What a digit adds to `v`, for a lower-case digit.
abbrev pub digit_value : ℕ → ℕ
digit_value c = if leb b'0' c && leb c b'9' then c - b'0' else 10 + c - b'a'

-- parse_hex, with its loop of two rounds written out; `none` is the result 0.
unfoldable pub parse_hex : List ℕ → Option ℕ
parse_hex [] = none
parse_hex (c ∷ []) = none
parse_hex (c ∷ d ∷ str) =
    if is_xdigit c && is_xdigit d
    then some (u8 (u8 (u8 (digit_value (to_lower c)) <<< 4) + digit_value (to_lower d)))
    else none

unfoldable pub skip_space : List ℕ → List ℕ
skip_space [] = []
skip_space (c ∷ s) = let rest = skip_space s in if is_space c then rest else c ∷ s

-- parse_digest_or_die, `len` bytes; `none` is `exit(1)`.
unfoldable pub parse_digest : ℕ → List ℕ → Option (List ℕ)
parse_digest zero str = some []
parse_digest (suc len) str =
    let s = skip_space str in
    let rest = parse_digest len (drop 2 s) in
    elim (parse_hex s) [
      | none ↦ none
      | some v ↦ elim rest [ none ↦ none | some buf ↦ some (v ∷ buf) ]
    ]

-- "%02x"
abbrev pub hex_char : ℕ → ℕ
hex_char n = if ltb n 10 then b'0' + n else b'a' + (n - 10)

unfoldable pub print_digest : List ℕ → List ℕ
print_digest [] = []
print_digest (v ∷ buf) = hex_char (v / 16) ∷ hex_char (v % 16) ∷ print_digest buf

pub data DigestAlg : Type 0 where
  sha1 : DigestAlg
  sha256 : DigestAlg

abbrev pub digest_size : DigestAlg → ℕ
digest_size sha1 = 20
digest_size sha256 = 32

-- The lines printed, and how the command ends: `return 0`, `return 1`, or `exit(1)`.
pub data Line : Type 0 where
  pcr : List ℕ → Line
  plus : List ℕ → Line

pub data Exit : Type 0 where
  success : Exit
  usage : Exit
  digest_error : Exit
  died : Exit

-- DigestBuf is a parameter; `none` is its result NULL.
module _ (digest_buf : List ℕ → DigestAlg → Option (List ℕ)) (alg : DigestAlg) where
  -- The loop over the arguments, from the value of the PCR.
  unfoldable pub extend_each : List ℕ → List (List ℕ) → List Line × Exit
  extend_each value [] = ([], success)
  extend_each value (arg ∷ argv) = elim (parse_digest (digest_size alg) arg) [
    | none ↦ ([], died)
    | some added ↦ elim (digest_buf (value ++ added) alg) [
      | none ↦ (plus (print_digest added) ∷ [], digest_error)
      | some digest ↦
          let value' = take (digest_size alg) digest in
          let (lines, exit) = extend_each value' argv in
          (plus (print_digest added) ∷ pcr (print_digest value') ∷ lines, exit)
    ]
  ]

  -- From the first value on.
  abbrev pub run_from : List ℕ → List (List ℕ) → List Line × Exit
  run_from value argv =
      let (lines, exit) = extend_each value argv in (pcr (print_digest value) ∷ lines, exit)

  -- do_pcr behind its options. The first value is zero, or with `-i` the first argument.
  unfoldable pub do_pcr : Bool → List (List ℕ) → List Line × Exit
  do_pcr opt_init [] = ([], usage)
  do_pcr false (arg ∷ argv) = run_from (replicate (digest_size alg) 0) (arg ∷ argv)
  do_pcr true (arg ∷ []) = ([], usage)
  do_pcr true (arg ∷ arg' ∷ argv) = elim (parse_digest (digest_size alg) arg) [
    | none ↦ ([], died)
    | some value ↦ run_from value (arg' ∷ argv)
  ]

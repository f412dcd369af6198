-- ===== src/Pcr/Spelling.antt =====
-- What parse_digest_or_die accepts, described by rules.
use futility.Prelude.{
  ℕ, zero, suc, ◌+◌, ◌*◌, ◌<◌, ◌≤◌, ◌≡◌, refl, arith, ap, some, List, [], ◌∷◌, length, true, false,
  ◌⊎◌, inl, inr, ◌↔◌, Option-cases, drop, sym, u8, ◌<<<◌, if_cases, ◌∙◌,
}
use futility.Pcr.Defs.{
  is_xdigit, is_space, to_lower, digit_value, parse_hex, parse_digest, skip_space,
}
use futility.Pcr.Digits.{parse_digest-suc, parse_digest-zero}

-- The character `c` is the hexadecimal digit of `x`.
abbrev pub IsDigit : ℕ → ℕ → Type 0
IsDigit c x =
    ((x < 10) × (c ≡ b'0' + x))
    ⊎ ((10 ≤ x) × (x < 16) × ((c + 10 ≡ b'a' + x) ⊎ (c + 10 ≡ b'A' + x)))

abbrev pub IsSpace : ℕ → Type 0
IsSpace c = (c ≡ 32) ⊎ ((9 ≤ c) × (c ≤ 13))

-- The string gives the bytes: pairs of digits, with spaces before each, and anything behind.
pub data Spells : List ℕ → List ℕ → Type 0 where
  done : (str : List ℕ) → Spells [] str
  space :
      (c v : ℕ) (str buf : List ℕ) → IsSpace c → Spells (v ∷ buf) str → Spells (v ∷ buf) (c ∷ str)
  byte :
      (c d x y v : ℕ) (str buf : List ℕ)
      → IsDigit c x
      → IsDigit d y
      → v ≡ 16 * x + y
      → Spells buf str
      → Spells (v ∷ buf) (c ∷ d ∷ str)

xdigit→IsDigit : (c : ℕ) → is_xdigit c ≡ true → IsDigit c (digit_value (to_lower c))
xdigit→IsDigit c h = ground arith

IsDigit→xdigit :
    (c x : ℕ)
    → IsDigit c x
    → (is_xdigit c ≡ true) × (is_space c ≡ false) × (digit_value (to_lower c) ≡ x)
IsDigit→xdigit c x h = ground arith

IsSpace→is_space : (c : ℕ) → IsSpace c → is_space c ≡ true
IsSpace→is_space c h = ground arith

is_space→IsSpace : (c : ℕ) → is_space c ≡ true → IsSpace c
is_space→IsSpace c h = ground arith

skip_space-Spells :
    (s : List ℕ) (v : ℕ) (buf : List ℕ) → Spells (v ∷ buf) (skip_space s) → Spells (v ∷ buf) s
unfolding skip_space
skip_space-Spells [] v buf h = h
skip_space-Spells (c ∷ s) v buf h =
    if_cases (λ (t : List ℕ). Spells (v ∷ buf) t → Spells (v ∷ buf) (c ∷ s)) (is_space c)
      (λ e p. space c v s buf (is_space→IsSpace c e) (skip_space-Spells s v buf p)) (λ e p. p) h

digit_pair : (x y : ℕ) → x < 16 → y < 16 → u8 (u8 (u8 x <<< 4) + y) ≡ 16 * x + y
digit_pair x y hx hy = omega arith

IsDigit-lt : (c x : ℕ) → IsDigit c x → x < 16
IsDigit-lt c x h = ground arith

parse_hex-digits :
    (c d x y : ℕ) (s : List ℕ)
    → IsDigit c x
    → IsDigit d y
    → parse_hex (c ∷ d ∷ s) ≡ some (16 * x + y)
unfolding parse_hex
parse_hex-digits c d x y s hc hd =
    let high = IsDigit→xdigit c x hc in
    let low = IsDigit→xdigit d y hd in
    rw (high.0, low.0, high.2, low.2)
      (ap some (digit_pair x y (IsDigit-lt c x hc) (IsDigit-lt d y hd)))

parse_hex-IsDigit :
    (s : List ℕ) (v : ℕ) (buf : List ℕ)
    → parse_hex s ≡ some v
    → Spells buf (drop 2 s)
    → Spells (v ∷ buf) s
unfolding parse_hex
parse_hex-IsDigit [] v buf h p = absurd (ground arith)
parse_hex-IsDigit (c ∷ []) v buf h p = absurd (ground arith)
parse_hex-IsDigit (c ∷ d ∷ s) v buf h p =
    let c_digit : is_xdigit c ≡ true = ground arith in
    let d_digit : is_xdigit d ≡ true = ground arith in
    let x = digit_value (to_lower c) in
    let y = digit_value (to_lower d) in
    let hc : IsDigit c x = xdigit→IsDigit c c_digit in
    let hd : IsDigit d y = xdigit→IsDigit d d_digit in
    let value : v ≡ 16 * x + y = cc (h, parse_hex-digits c d x y s hc hd) in
    byte c d x y v s buf hc hd value p

parse_digest→Spells :
    (len : ℕ) (str buf : List ℕ)
    → parse_digest len str ≡ some buf
    → (length buf ≡ len) × Spells buf str
unfolding parse_digest
parse_digest→Spells zero str [] h = (refl, done str)
parse_digest→Spells zero str (v ∷ buf) h = absurd (ground arith)
parse_digest→Spells (suc len) str buf h = elim (Option-cases (parse_hex (skip_space str))) [
  | inl bad ↦ absurd (ground arith)
  | inr (v, good) ↦ elim (Option-cases (parse_digest len (drop 2 (skip_space str)))) [
    | inl bad ↦ absurd (ground arith)
    | inr (rest, parsed) ↦
        let both : (v ∷ rest) ≡ buf = ground arith in
        let (l, p) = parse_digest→Spells len (drop 2 (skip_space str)) rest parsed in
        rw (← both) (
          ap suc l,
          skip_space-Spells str v rest (parse_hex-IsDigit (skip_space str) v rest good p),
        )
  ]
]

skip_space-space : (c : ℕ) (str : List ℕ) → IsSpace c → skip_space (c ∷ str) ≡ skip_space str
unfolding skip_space
skip_space-space c str s = rw (IsSpace→is_space c s) refl

parse_digest-skip_space :
    (len : ℕ) (s t : List ℕ)
    → skip_space s ≡ skip_space t
    → parse_digest (suc len) s ≡ parse_digest (suc len) t
unfolding parse_digest
parse_digest-skip_space len s t e = ground arith

skip_space-digit : (c x : ℕ) (str : List ℕ) → IsDigit c x → skip_space (c ∷ str) ≡ c ∷ str
unfolding skip_space
skip_space-digit c x str h = rw ((IsDigit→xdigit c x h).1) refl

Spells→parse_digest :
    (len : ℕ) (str buf : List ℕ)
    → length buf ≡ len
    → Spells buf str
    → parse_digest len str ≡ some buf
Spells→parse_digest zero str buf l (done str') = parse_digest-zero str
Spells→parse_digest zero str buf l (space c v str' buf' s h) = absurd (omega arith)
Spells→parse_digest zero str buf l (byte c d x y v str' buf' hc hd e h) = absurd (omega arith)
Spells→parse_digest (suc len) str buf l (done str') = absurd (omega arith)
Spells→parse_digest (suc len) str buf l (space c v str' buf' s h) =
    parse_digest-skip_space len (c ∷ str') str' (skip_space-space c str' s)
    ∙ Spells→parse_digest (suc len) str' (v ∷ buf') l h
Spells→parse_digest (suc len) str buf l (byte c d x y v str' buf' hc hd e h) =
    parse_digest-suc len (c ∷ d ∷ str') (c ∷ d ∷ str') v buf' (skip_space-digit c x (d ∷ str') hc)
      (parse_hex-digits c d x y str' hc hd ∙ ap some (sym e))
      (Spells→parse_digest len str' buf' (omega arith) h)

-- parse_digest_or_die gives the bytes that the string spells, as many as asked for: pairs of
-- hexadecimal digits, each with white space before it or none. What follows them is not looked at.
pub parse_digest_iff :
    (len : ℕ) (str buf : List ℕ)
    → (parse_digest len str ≡ some buf) ↔ ((length buf ≡ len) × Spells buf str)
parse_digest_iff len str buf =
    (parse_digest→Spells len str buf, λ h. Spells→parse_digest len str buf h.0 h.1)

-- ===== src/Prelude/Memory.antt =====
-- Buffers of bytes, read as the code reads its mapped files: a structure is a view at an offset,
-- with little-endian fields. A read past the end of the buffer gives a byte that nothing is known
-- of, so that a function reads in bounds exactly if it depends on no such byte (`Agree`).
use Prim.Native.Nat.{ℕ, zero, suc, ◌+◌, ◌*◌, ◌/◌, ◌%◌, ◌^◌, ◌≤◌, ◌<◌}
use mathlib.Core.Path.{◌≡◌, refl, sym, subst, ◌∙◌, fun_ext}
use mathlib.Core.Logic.{◌⊎◌, inl}
use mathlib.Core.Bool.{Bool, true, false}
use native.Mathlib.Omega.{arith}
use mathlib.Core.List.{List, [], ◌∷◌}
use futility.Prelude.Lists.{length}
use futility.Prelude.Tests.{◌==◌, if◌then◌else◌}

abbrev pub Bytes : Type 0
Bytes = ℕ → ℕ

abbrev pub le16 : Bytes → ℕ → ℕ
le16 b o = b o + b (o + 1) * 2 ^ 8

abbrev pub le32 : Bytes → ℕ → ℕ
le32 b o = b o + b (o + 1) * 2 ^ 8 + b (o + 2) * 2 ^ 16 + b (o + 3) * 2 ^ 24

abbrev pub le64 : Bytes → ℕ → ℕ
le64 b o = le32 b o + le32 b (o + 4) * 2 ^ 32

-- `memcmp(b + o, text, n) == 0` for a text of `n` bytes.
unfoldable pub memcmp_eq : Bytes → ℕ → List ℕ → Bool
memcmp_eq b o [] = true
memcmp_eq b o (c ∷ text) = if b o == c then memcmp_eq b (o + 1) text else false

-- `strncmp(b + o, name, n) == 0` for a name with no zero byte.
unfoldable pub strncmp_eq : ℕ → Bytes → ℕ → List ℕ → Bool
strncmp_eq zero b o name = true
strncmp_eq (suc n) b o [] = b o == 0
strncmp_eq (suc n) b o (c ∷ name) = if b o == c then strncmp_eq n b (o + 1) name else false

-- The buffers hold the same first `n` bytes.
abbrev pub Agree : ℕ → Bytes → Bytes → Type 0
Agree n a b = (i : ℕ) → i < n → a i ≡ b i

abbrev pub IsBytes : Bytes → Type 0
IsBytes b = (i : ℕ) → b i < 256

pub le32-lt : (b : Bytes) (o : ℕ) → IsBytes b → le32 b o < 2 ^ 32
le32-lt b o h = omega (arith, h o, h (o + 1), h (o + 2), h (o + 3))

pub le64-lt : (b : Bytes) (o : ℕ) → IsBytes b → le64 b o < 2 ^ 64
le64-lt b o h = omega (arith, le32-lt b o h, le32-lt b (o + 4) h)

-- Stores of little-endian fields.
abbrev pub put16 : Bytes → ℕ → ℕ → Bytes
put16 b o v = λ i. if i == o then v % 2 ^ 8 else if i == o + 1 then v / 2 ^ 8 % 2 ^ 8 else b i

unfoldable pub put32 : Bytes → ℕ → ℕ → Bytes
put32 b o v = put16 (put16 b o (v % 2 ^ 16)) (o + 2) (v / 2 ^ 16)

-- `memcpy(b + o, text, length text)`
abbrev pub put_text : Bytes → ℕ → List ℕ → Bytes
put_text b o [] = b
put_text b o (c ∷ text) = put_text (λ i. if i == o then c else b i) (o + 1) text

-- A store is read back, and changes no other byte.
pub le32-put32 : (b : Bytes) (o v : ℕ) → v < 2 ^ 32 → le32 (put32 b o v) o ≡ v
unfolding put32
le32-put32 b o v h = ground arith

pub put32_ne : (b : Bytes) (o v i : ℕ) → (i < o) ⊎ (o + 4 ≤ i) → put32 b o v i ≡ b i
unfolding put32
put32_ne b o v i h = ground arith

pub le32-put32_ne :
    (b : Bytes) (o v p : ℕ) → (p + 4 ≤ o) ⊎ (o + 4 ≤ p) → le32 (put32 b o v) p ≡ le32 b p
le32-put32_ne b o v p h = ground (
  arith,
  put32_ne b o v p,
  put32_ne b o v (p + 1),
  put32_ne b o v (p + 2),
  put32_ne b o v (p + 3),
)

pub put32-IsBytes : (b : Bytes) (o v : ℕ) → IsBytes b → IsBytes (put32 b o v)
unfolding put32
put32-IsBytes b o v h i = ground (arith, h i)

-- `put32` of each value at its offset.
abbrev pub put_all : Bytes → List (ℕ × ℕ) → Bytes
put_all b [] = b
put_all b ((o, v) ∷ fields) = put_all (put32 b o v) fields

pub put_all-IsBytes : (b : Bytes) (fields : List (ℕ × ℕ)) → IsBytes b → IsBytes (put_all b fields)
put_all-IsBytes b [] h = h
put_all-IsBytes b ((o, v) ∷ fields) h = put_all-IsBytes (put32 b o v) fields (put32-IsBytes b o v h)

-- The `n` bytes at an offset.
abbrev pub bytes_at : ℕ → Bytes → ℕ → List ℕ
bytes_at zero b o = []
bytes_at (suc n) b o = b o ∷ bytes_at n b (o + 1)

-- A text put back where it stood changes nothing.
pub put_text-bytes_at : (n : ℕ) (b : Bytes) (o i : ℕ) → put_text b o (bytes_at n b o) i ≡ b i
put_text-bytes_at zero b o i = refl
put_text-bytes_at (suc n) b o i =
    let same : (λ (j : ℕ). if j == o then b o else b j) ≡ b = fun_ext (λ j. ground arith) in
    subst (λ (m : Bytes). put_text m (o + 1) (bytes_at n b (o + 1)) i ≡ b i) (sym same)
      (put_text-bytes_at n b (o + 1) i)

-- Nothing but the text's own bytes changes.
pub put_text_ne :
    (b : Bytes) (o : ℕ) (text : List ℕ) (i : ℕ)
    → (i < o) ⊎ (o + length text ≤ i)
    → put_text b o text i ≡ b i
put_text_ne b o [] i h = refl
put_text_ne b o (c ∷ text) i h =
    put_text_ne (λ j. if j == o then c else b j) (o + 1) text i (ground arith) ∙ ground arith

-- The bytes of the text are read back.
pub bytes_at-put_text :
    (b : Bytes) (o : ℕ) (text : List ℕ) → bytes_at (length text) (put_text b o text) o ≡ text
bytes_at-put_text b o [] = refl
bytes_at-put_text b o (c ∷ text) =
    let first : put_text (λ j. if j == o then c else b j) (o + 1) text o ≡ c =
      put_text_ne (λ j. if j == o then c else b j) (o + 1) text o (inl (omega arith))
      ∙ ground arith in
    rw (first, bytes_at-put_text (λ j. if j == o then c else b j) (o + 1) text) refl

-- The characters of a string of at most `n`, up to a zero byte.
unfoldable pub text_at : ℕ → Bytes → ℕ → List ℕ
text_at zero b o = []
text_at (suc n) b o = if b o == 0 then [] else (b o ∷ text_at n b (o + 1))

-- Fields read where two buffers hold the same bytes.
pub le16_same :
    (a b : Bytes) (o : ℕ) → ((i : ℕ) → o ≤ i → i < o + 2 → a i ≡ b i) → le16 a o ≡ le16 b o
le16_same a b o h = rw (h o (omega arith) (omega arith), h (o + 1) (omega arith) (omega arith)) refl

pub le32_same :
    (a b : Bytes) (o : ℕ) → ((i : ℕ) → o ≤ i → i < o + 4 → a i ≡ b i) → le32 a o ≡ le32 b o
le32_same a b o h =
    rw
      (
        h o (omega arith) (omega arith),
        h (o + 1) (omega arith) (omega arith),
        h (o + 2) (omega arith) (omega arith),
        h (o + 3) (omega arith) (omega arith),
      )
      refl

pub le64_same :
    (a b : Bytes) (o : ℕ) → ((i : ℕ) → o ≤ i → i < o + 8 → a i ≡ b i) → le64 a o ≡ le64 b o
le64_same a b o h =
    let low = le32_same a b o (λ i l u. h i l (omega arith)) in
    let high = le32_same a b (o + 4) (λ i l u. h i (omega arith) (omega arith)) in
    λ t. low t + high t * 2 ^ 32

pub bytes_at_same :
    (n : ℕ) (a b : Bytes) (o : ℕ)
    → ((i : ℕ) → o ≤ i → i < o + n → a i ≡ b i)
    → bytes_at n a o ≡ bytes_at n b o
bytes_at_same zero a b o h = refl
bytes_at_same (suc n) a b o h =
    rw
      (
        h o (omega arith) (omega arith),
        bytes_at_same n a b (o + 1) (λ i l u. h i (omega arith) (omega arith)),
      )
      refl

-- A text that is compared with the same bytes.
pub memcmp_eq_same :
    (b c : Bytes) (o : ℕ) (text : List ℕ)
    → ((i : ℕ) → o ≤ i → i < o + length text → b i ≡ c i)
    → memcmp_eq b o text ≡ memcmp_eq c o text
unfolding memcmp_eq
memcmp_eq_same b c o [] h = refl
memcmp_eq_same b c o (x ∷ text) h =
    let first = h o (omega arith) (omega arith) in
    let rest = memcmp_eq_same b c (o + 1) text (λ i l u. h i (omega arith) (omega arith)) in
    λ t. if first t == x then rest t else false

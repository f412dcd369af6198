-- ===== src/Prelude/Copy.antt =====
-- Stores of 64-bit fields, and copies from one buffer to another.
use Prim.Native.Nat.{ℕ, ◌+◌, ◌-◌, ◌/◌, ◌%◌, ◌^◌, ◌≤◌, ◌<◌}
use mathlib.Core.Path.{◌≡◌, ◌∙◌}
use mathlib.Core.Logic.{◌⊎◌, inl}
use mathlib.Core.Bool.{◌&&◌}
use native.Mathlib.Omega.{arith}
use futility.Prelude.Tests.{leb, ltb, if◌then◌else◌}
use futility.Prelude.Memory.{Bytes, IsBytes, le64, put32, le32-put32, le32-put32_ne}
use futility.Prelude.Memory.{put32_ne, put32-IsBytes}

unfoldable pub put64 : Bytes → ℕ → ℕ → Bytes
put64 b o v = put32 (put32 b o (v % 2 ^ 32)) (o + 4) (v / 2 ^ 32)

pub le64-put64 : (b : Bytes) (o v : ℕ) → v < 2 ^ 64 → le64 (put64 b o v) o ≡ v
unfolding put64
le64-put64 b o v h =
    let low = le32-put32_ne (put32 b o (v % 2 ^ 32)) (o + 4) (v / 2 ^ 32) o (inl (omega arith)) in
    let low' = le32-put32 b o (v % 2 ^ 32) (omega arith) in
    let high = le32-put32 (put32 b o (v % 2 ^ 32)) (o + 4) (v / 2 ^ 32) (omega arith) in
    omega (arith, low, low', high)

pub put64_ne : (b : Bytes) (o v i : ℕ) → (i < o) ⊎ (o + 8 ≤ i) → put64 b o v i ≡ b i
unfolding put64
put64_ne b o v i h =
    put32_ne (put32 b o (v % 2 ^ 32)) (o + 4) (v / 2 ^ 32) i (ground arith)
    ∙ put32_ne b o (v % 2 ^ 32) i (ground arith)

pub put64-IsBytes : (b : Bytes) (o v : ℕ) → IsBytes b → IsBytes (put64 b o v)
unfolding put64
put64-IsBytes b o v h = put32-IsBytes _ (o + 4) (v / 2 ^ 32) (put32-IsBytes b o (v % 2 ^ 32) h)

-- `memcpy(dest + o, src + p, n)`
unfoldable pub copy : Bytes → ℕ → Bytes → ℕ → ℕ → Bytes
copy dest o src p n = λ i. if leb o i && ltb i (o + n) then src (p + (i - o)) else dest i

pub copy_same : (dest src : Bytes) (o p n i : ℕ) → i < n → copy dest o src p n (o + i) ≡ src (p + i)
unfolding copy
copy_same dest src o p n i h = ground arith

pub copy_ne :
    (dest src : Bytes) (o p n i : ℕ) → (i < o) ⊎ (o + n ≤ i) → copy dest o src p n i ≡ dest i
unfolding copy
copy_ne dest src o p n i h = ground arith

pub copy-IsBytes :
    (dest src : Bytes) (o p n : ℕ) → IsBytes dest → IsBytes src → IsBytes (copy dest o src p n)
unfolding copy
copy-IsBytes dest src o p n d s i = ground (arith, d i, s (p + (i - o)))

pub copy_start : (dest src : Bytes) (n i : ℕ) → i < n → copy dest 0 src 0 n i ≡ src i
unfolding copy
copy_start dest src n i h = ground arith

-- ===== src/Prelude/Stores.antt =====
-- Assignments to the fields of a structure in a buffer, as a list of stores in their order, and what
-- the fields hold after them.
use Prim.Native.Nat.{ℕ, ◌+◌, ◌/◌, ◌%◌, ◌^◌, ◌≤◌, ◌<◌}
use mathlib.Core.Path.{◌≡◌, refl, ◌∙◌}
use mathlib.Core.Logic.{◌⊎◌, inl, inr}
use mathlib.Core.Bool.{Bool, true, false, ◌&&◌, ◌||◌}
use mathlib.Core.List.{List, [], ◌∷◌}
use mathlib.Core.Option.{Option, none, some}
use native.Mathlib.Omega.{arith}
use futility.Prelude.Tests.{leb, if◌then◌else◌, ◌==◌, Bool-cases}
use futility.Prelude.Memory.{Bytes, IsBytes, Agree, le32, le64, put32, put32_ne, put32-IsBytes}
use futility.Prelude.Memory.{le32-put32_ne, le32_same, le64_same}
use futility.Prelude.Copy.{put64, put64_ne, put64-IsBytes}

pub data Store : Type 0 where
  store32 store64 : ℕ → ℕ → Store

abbrev pub store : Bytes → Store → Bytes
store b (store32 o v) = put32 b o v
store b (store64 o v) = put64 b o v

abbrev pub stores : Bytes → List Store → Bytes
stores b [] = b
stores b (s ∷ l) = stores (store b s) l

pub le32-put32_mod : (b : Bytes) (o v : ℕ) → le32 (put32 b o v) o ≡ v % 2 ^ 32
unfolding put32
le32-put32_mod b o v = ground arith

pub le64-put64_mod : (b : Bytes) (o v : ℕ) → le64 (put64 b o v) o ≡ v % 2 ^ 64
unfolding put64
le64-put64_mod b o v =
    let low = le32-put32_ne (put32 b o (v % 2 ^ 32)) (o + 4) (v / 2 ^ 32) o (inl (omega arith)) in
    let low' = le32-put32_mod b o (v % 2 ^ 32) in
    let high = le32-put32_mod (put32 b o (v % 2 ^ 32)) (o + 4) (v / 2 ^ 32) in
    omega (arith, low, low', high)

-- The place and the length of a store.
abbrev pub place : Store → ℕ
place (store32 o v) = o
place (store64 o v) = o

abbrev pub width : Store → ℕ
width (store32 o v) = 4
width (store64 o v) = 8

pub store_ne :
    (b : Bytes) (s : Store) (i : ℕ) → (i < place s) ⊎ (place s + width s ≤ i) → store b s i ≡ b i
store_ne b (store32 o v) i h = put32_ne b o v i h
store_ne b (store64 o v) i h = put64_ne b o v i h

pub stores-IsBytes : (b : Bytes) (l : List Store) → IsBytes b → IsBytes (stores b l)
stores-IsBytes b [] h = h
stores-IsBytes b (store32 o v ∷ l) h = stores-IsBytes (put32 b o v) l (put32-IsBytes b o v h)
stores-IsBytes b (store64 o v ∷ l) h = stores-IsBytes (put64 b o v) l (put64-IsBytes b o v h)

-- The store touches none of `n` bytes at `o`.
abbrev pub apart : Store → ℕ → ℕ → Bool
apart s o n = leb (o + n) (place s) || leb (place s + width s) o

-- No store touches them.
abbrev pub all_apart : List Store → ℕ → ℕ → Bool
all_apart [] o n = true
all_apart (s ∷ l) o n = apart s o n && all_apart l o n

stores_apart :
    (b : Bytes) (l : List Store) (o n i : ℕ)
    → all_apart l o n ≡ true
    → o ≤ i
    → i < o + n
    → stores b l i ≡ b i
stores_apart b [] o n i h lo hi = refl
stores_apart b (s ∷ l) o n i h lo hi =
    stores_apart (store b s) l o n i (ground arith) lo hi ∙ store_ne b s i (ground arith)

-- Where the last store that touches a field is one of the whole field, what it has stored.
abbrev pub is_store32 : Store → ℕ → Bool
is_store32 (store32 p v) o = p == o
is_store32 (store64 p v) o = false

abbrev pub is_store64 : Store → ℕ → Bool
is_store64 (store32 p v) o = false
is_store64 (store64 p v) o = p == o

abbrev pub stored : Store → ℕ
stored (store32 p v) = v
stored (store64 p v) = v

abbrev pub last32 : List Store → ℕ → Option ℕ
last32 [] o = none
last32 (s ∷ l) o =
    let rest = last32 l o in if is_store32 s o && all_apart l o 4 then some (stored s) else rest

abbrev pub last64 : List Store → ℕ → Option ℕ
last64 [] o = none
last64 (s ∷ l) o =
    let rest = last64 l o in if is_store64 s o && all_apart l o 8 then some (stored s) else rest

pub store-Agree : (n : ℕ) (a b : Bytes) (s : Store) → Agree n a b → Agree n (store a s) (store b s)
unfolding put64 put32
store-Agree n a b (store32 o v) h i l = ground (arith, h i l)
store-Agree n a b (store64 o v) h i l = ground (arith, h i l)

pub stores-Agree :
    (n : ℕ) (a b : Bytes) (l : List Store) → Agree n a b → Agree n (stores a l) (stores b l)
stores-Agree n a b [] h = h
stores-Agree n a b (s ∷ l) h = stores-Agree n (store a s) (store b s) l (store-Agree n a b s h)

-- What a field holds that no store touches.
le32-stores :
    (b : Bytes) (l : List Store) (o : ℕ) → all_apart l o 4 ≡ true → le32 (stores b l) o ≡ le32 b o
le32-stores b l o e = le32_same (stores b l) b o (λ i lo hi. stores_apart b l o 4 i e lo hi)

le64-stores :
    (b : Bytes) (l : List Store) (o : ℕ) → all_apart l o 8 ≡ true → le64 (stores b l) o ≡ le64 b o
le64-stores b l o e = le64_same (stores b l) b o (λ i lo hi. stores_apart b l o 8 i e lo hi)

-- What a field holds after the last store to it, if no store touches a part of it after that.
pub last32_lem :
    (b : Bytes) (l : List Store) (o : ℕ) {v : ℕ}
    → last32 l o ≡ some v
    → le32 (stores b l) o ≡ v % 2 ^ 32
last32_lem b [] o e = cc
last32_lem b (store32 p w ∷ l) o {v} e = elim (Bool-cases ((p == o) && all_apart l o 4)) [
  | inl here ↦
      let same : p ≡ o = ground arith in
      let value : w ≡ v = ground arith in
      le32-stores (put32 b p w) l o (ground arith) ∙ rw (same, value) (le32-put32_mod b o v)
  | inr there ↦ last32_lem (put32 b p w) l o {v = v} (ground arith)
]
last32_lem b (store64 p w ∷ l) o e = last32_lem (put64 b p w) l o e

pub last64_lem :
    (b : Bytes) (l : List Store) (o : ℕ) {v : ℕ}
    → last64 l o ≡ some v
    → le64 (stores b l) o ≡ v % 2 ^ 64
last64_lem b [] o e = cc
last64_lem b (store32 p w ∷ l) o e = last64_lem (put32 b p w) l o e
last64_lem b (store64 p w ∷ l) o {v} e = elim (Bool-cases ((p == o) && all_apart l o 8)) [
  | inl here ↦
      let same : p ≡ o = ground arith in
      let value : w ≡ v = ground arith in
      le64-stores (put64 b p w) l o (ground arith) ∙ rw (same, value) (le64-put64_mod b o v)
  | inr there ↦ last64_lem (put64 b p w) l o {v = v} (ground arith)
]

-- A store of what a field holds already changes nothing.
pub put32_self : (b : Bytes) (o i : ℕ) → IsBytes b → put32 b o (le32 b o) i ≡ b i
unfolding put32
put32_self b o i h = ground (arith, h o, h (o + 1), h (o + 2), h (o + 3))

pub put64_self : (b : Bytes) (o v i : ℕ) → IsBytes b → v ≡ le64 b o → put64 b o v i ≡ b i
unfolding put64 put32
put64_self b o v i h e =
    ground
      (arith, e, h o, h (o + 1), h (o + 2), h (o + 3), h (o + 4), h (o + 5), h (o + 6), h (o + 7))

pub le64-put64_ne :
    (b : Bytes) (o v p : ℕ) → (p + 8 ≤ o) ⊎ (o + 8 ≤ p) → le64 (put64 b o v) p ≡ le64 b p
le64-put64_ne b o v p h = le64_same (put64 b o v) b p (λ i lo hi. put64_ne b o v i (ground arith))

-- ===== src/Fmap/Areas.antt =====
-- fmap_find_by_name looks the areas up in order; fmap_find reads nothing outside the buffer.
use futility.Prelude.{ℕ, zero, suc, ◌+◌, ◌-◌, ◌*◌, ◌/◌, ◌<◌, ◌≤◌, Bool, true, false}
use futility.Prelude.{
  Option, none, some, ◌≡◌, refl, arith, inl, inr, Bool-cases, lt→ltb, ge→ltb, List,
}
use futility.Prelude.{[], ◌∷◌, length}
use native.Mathlib.Nat.{zero-add}
use native.Mathlib.Decide.{ℕ_discrete, dec_lt}
use futility.Prelude.Memory.{Bytes, Agree, memcmp_eq, strncmp_eq}
use futility.Fmap.Search.{grow, scan, descend}
use futility.Fmap.Defs.{is_fmap, header_size, fmap_find, fmap_namelen, fmap_nareas, area_at}
use futility.Fmap.Defs.{find_area, fmap_find_by_name, fmap_signature}

-- Area `i` of the map has the name.
abbrev pub is_named : Bytes → ℕ → List ℕ → ℕ → Bool
is_named b fmap name i = strncmp_eq fmap_namelen b (area_at fmap i + 8) name

-- A search of the areas from `i` on, before `n`.
pub data AreaFound (b : Bytes) (fmap : ℕ) (name : List ℕ) (i n : ℕ) : Option ℕ → Type 0 where
  no_area :
      ((j : ℕ) → i ≤ j → j < n → is_named b fmap name j ≡ false) → AreaFound b fmap name i n none
  area :
      (k : ℕ) {ah : ℕ}
      → ah ≡ area_at fmap k
      → k < n
      → is_named b fmap name k ≡ true
      → ((j : ℕ) → i ≤ j → j < k → is_named b fmap name j ≡ false)
      → AreaFound b fmap name i n (some ah)

AreaFound-next :
    {b : Bytes} {fmap : ℕ} {name : List ℕ} {i n : ℕ} {r : Option ℕ}
    → is_named b fmap name i ≡ false
    → AreaFound b fmap name (i + 1) n r
    → AreaFound b fmap name i n r
AreaFound-next {b} {fmap} {name} {i} {n} here (no_area later) = no_area other
  where
    other : (j : ℕ) → i ≤ j → j < n → is_named b fmap name j ≡ false
    other j le lt = elim (ℕ_discrete i j) [
      | yes e ↦ rw (← e) here
      | no ne ↦ later j (omega arith) lt
    ]
AreaFound-next {b} {fmap} {name} {i} {n} here (area k e lt named before) = area k e lt named other
  where
    other : (j : ℕ) → i ≤ j → j < k → is_named b fmap name j ≡ false
    other j le lt = elim (ℕ_discrete i j) [
      | yes e ↦ rw (← e) here
      | no ne ↦ before j (omega arith) lt
    ]

find_area-AreaFound :
    (b : Bytes) (fmap : ℕ) (name : List ℕ) (left i : ℕ)
    → AreaFound b fmap name i (i + left) (find_area b fmap name left i)
unfolding find_area
find_area-AreaFound b fmap name zero i = no_area (λ j le lt. absurd (omega arith))
find_area-AreaFound b fmap name (suc left) i = elim (Bool-cases (is_named b fmap name i)) [
  | inl named ↦ rw named (area i refl (omega arith) named (λ j le lt. absurd (omega arith)))
  | inr other ↦
      rw other (AreaFound-next other (rw bound (find_area-AreaFound b fmap name left (i + 1))))
]
  where
    bound : i + suc left ≡ i + 1 + left
    bound = omega arith

-- fmap_find_by_name with a header in hand gives the first of the map's areas that has the name, as
-- strncmp compares the 32 bytes of the field, and NULL exactly if none has it.
pub fmap_find_by_name-AreaFound :
    (b : Bytes) (size fmap : ℕ) (name : List ℕ)
    → AreaFound b fmap name 0 (fmap_nareas b fmap) (fmap_find_by_name b size (some fmap) name)
unfolding fmap_find_by_name
fmap_find_by_name-AreaFound b size fmap name =
    rw zero-add at (find_area-AreaFound b fmap name (fmap_nareas b fmap) 0)

-- The tests of the two buffers agree up to `lim`.
module _ (p q : ℕ → Bool) (lim : ℕ) (same : (o : ℕ) → o ≤ lim → p o ≡ q o) where
  scan-same : (f align offset : ℕ) → scan p lim f align offset ≡ scan q lim f align offset
  unfolding scan
  scan-same zero align offset = refl
  scan-same (suc f) align offset =
      ground (arith, same offset, scan-same f align (offset + align * 2))

  descend-same : (f align : ℕ) → descend p lim f align ≡ descend q lim f align
  unfolding descend
  descend-same zero align = refl
  descend-same (suc f) align =
      ground (arith, scan-same (suc lim) align align, descend-same f (align / 2))

memcmp_eq-same :
    (a b : Bytes) (n o : ℕ) (text : List ℕ)
    → Agree n a b
    → o + length text ≤ n
    → memcmp_eq a o text ≡ memcmp_eq b o text
unfolding memcmp_eq
memcmp_eq-same a b n o [] h fits = refl
memcmp_eq-same a b n o (c ∷ text) h fits =
    ground (arith, h o (omega arith), memcmp_eq-same a b n (o + 1) text h (omega arith))

is_fmap-same :
    (a b : Bytes) (n o : ℕ) → Agree n a b → o + header_size ≤ n → is_fmap a o ≡ is_fmap b o
unfolding is_fmap
is_fmap-same a b n o h fits =
    ground (arith, h (o + 8), memcmp_eq-same a b n o fmap_signature h (omega arith))

-- fmap_find reads no byte at or past `size`: two buffers that hold the same first `size` bytes
-- give the same answer.
pub fmap_find-Agree :
    (a b : Bytes) (size : ℕ) → Agree size a b → fmap_find a size ≡ fmap_find b size
unfolding fmap_find
fmap_find-Agree a b size h = elim (dec_lt size header_size) [
  | yes short ↦ rw (lt→ltb size header_size short)
  | no room ↦
      let lim = size - header_size in
      let same : (o : ℕ) → o ≤ lim → is_fmap a o ≡ is_fmap b o =
        λ o le. is_fmap-same a b size o h (omega arith) in
      rw (
        ge→ltb size header_size room,
        same 0 (omega arith),
        descend-same (is_fmap a) (is_fmap b) lim same (grow (suc lim) lim 4) (grow (suc lim) lim 4),
      )
]

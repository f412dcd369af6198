-- ===== src/Gbb/Find.antt =====
-- FindGbbHeader of src/cmd_gbb_utility.c.
use futility.Prelude.{
  ℕ, zero, suc, ◌+◌, ◌-◌, ◌*◌, ◌/◌, ◌^◌, ◌<◌, ◌≤◌, ◌≡◌, refl, arith, true, false,
}
use futility.Prelude.{Bool, Option, none, some, List, [], ◌∷◌, if◌then◌else◌, u32, sub64, ◌==◌}
use futility.Prelude.{inl, inr, Bool-cases, length, ◌∙◌, sym, ◌⊎◌}
use mathlib.Core.List.{head?}
use native.Mathlib.Numerals.{add-one}
use futility.Prelude.Memory.{Bytes, memcmp_eq}
use futility.Gbb.Header.{futil_valid_gbb_header, gbb_signature}

-- Something with the signature stands at `i`, and is good.
abbrev pub gbb_at : Bytes → ℕ → ℕ → Bool
gbb_at b size i =
    if memcmp_eq b i gbb_signature then futil_valid_gbb_header b i (u32 (size - i)) else false

module _ (b : Bytes) (size : ℕ) where
  -- The loop at offset `i`, with `left` rounds to go: `count` and `gbb_header` at its end.
  unfoldable pub find_loop : ℕ → ℕ → ℕ → Option ℕ → ℕ × Option ℕ
  find_loop zero i count found = (count, found)
  find_loop (suc left) i count found =
      let hit = gbb_at b size i in
      find_loop left (i + 4) (if hit then count + 1 else count)
        (if hit then (if count == 0 then some i else found) else found)

  -- The switch on the count.
  abbrev pub only : ℕ × Option ℕ → Option ℕ
  only (count, found) = if count == 1 then found else none

  -- The rounds of `for (i = 0; i <= size - 4; i += 4)`, whose limit is a size_t.
  unfoldable pub find_gbb_header : Option ℕ
  unfolding find_loop
  find_gbb_header = only (find_loop (sub64 size 4 / 4 + 1) 0 0 none)

  -- The good offsets among `i`, `i + 4`, …, in order.
  pub good_offsets : ℕ → ℕ → List ℕ
  good_offsets zero i = []
  good_offsets (suc left) i =
      let rest = good_offsets left (i + 4) in if gbb_at b size i then i ∷ rest else rest

  pub the_only : List ℕ → Option ℕ
  the_only [] = none
  the_only (o ∷ []) = some o
  the_only (o ∷ _ ∷ _) = none

  loop_counting :
      (left i n : ℕ) (found : Option ℕ)
      → find_loop left i (suc n) found ≡ (suc n + length (good_offsets left i), found)
  unfolding find_loop good_offsets
  loop_counting zero i n found = ground arith
  loop_counting (suc left) i n found = ground (
    arith,
    loop_counting left (i + 4) n found,
    loop_counting left (i + 4) (suc n) found,
    add-one (suc n),
  )

  loop_first :
      (left i : ℕ)
      → find_loop left i 0 none ≡ (length (good_offsets left i), head? (good_offsets left i))
  unfolding find_loop good_offsets
  loop_first zero i = refl
  loop_first (suc left) i = elim (Bool-cases (gbb_at b size i)) [
    | inl hit ↦ ground (arith, loop_counting left (i + 4) 0 (some i))
    | inr miss ↦ rw miss (loop_first left (i + 4))
  ]

  only-the_only : (l : List ℕ) → only (length l, head? l) ≡ the_only l
  unfolding the_only
  only-the_only [] = refl
  only-the_only (o ∷ []) = refl
  only-the_only (o ∷ p ∷ l) = ground arith

  -- What the search of the offsets `i + 4 * j`, `j < left`, says.
  pub data Unique (left i : ℕ) : Option ℕ → Type 0 where
    nowhere : ((j : ℕ) → j < left → gbb_at b size (i + 4 * j) ≡ false) → Unique left i none
    twice :
        (j k : ℕ)
        → j < k
        → k < left
        → gbb_at b size (i + 4 * j) ≡ true
        → gbb_at b size (i + 4 * k) ≡ true
        → Unique left i none
    once :
        (j : ℕ) {r : ℕ}
        → r ≡ i + 4 * j
        → j < left
        → gbb_at b size r ≡ true
        → ((k : ℕ) → k < left → gbb_at b size (i + 4 * k) ≡ true → k ≡ j)
        → Unique left i (some r)

  shift : (i j : ℕ) → i + 4 + 4 * j ≡ i + 4 * suc j
  shift i j = omega arith

  start : (i : ℕ) → i + 4 * 0 ≡ i
  start i = omega arith

  none_later :
      (left i : ℕ)
      → gbb_at b size i ≡ false
      → ((j : ℕ) → j < left → gbb_at b size (i + 4 + 4 * j) ≡ false)
      → (j : ℕ) → j < suc left
      → gbb_at b size (i + 4 * j) ≡ false
  none_later left i miss h zero lt = rw start miss
  none_later left i miss h (suc j) lt = rw (← shift i j) (h j (omega arith))

  first_good :
      (left i : ℕ)
      → ((good_offsets left i ≡ []) × ((j : ℕ) → j < left → gbb_at b size (i + 4 * j) ≡ false))
        ⊎ ((o : ℕ) × (l : List ℕ) × (good_offsets left i ≡ o ∷ l)
            × ((k : ℕ) × (k < left) × (gbb_at b size (i + 4 * k) ≡ true)))
  unfolding good_offsets
  first_good zero i = inl (refl, λ j lt. absurd (omega arith))
  first_good (suc left) i = elim (Bool-cases (gbb_at b size i)) [
    | inl hit ↦ inr (i, good_offsets left (i + 4), rw hit, (0, omega arith, rw start hit))
    | inr miss ↦ elim (first_good left (i + 4)) [
      | inl (e, none_good) ↦ inl (rw miss e, none_later left i miss none_good)
      | inr (o, l, e, (k, lt, good)) ↦
          inr (o, l, rw miss e, (suc k, omega arith, rw (← shift i k) good))
    ]
  ]

  Unique-later :
      {left i : ℕ} {r : Option ℕ}
      → gbb_at b size i ≡ false
      → Unique left (i + 4) r
      → Unique (suc left) i r
  Unique-later {left} {i} miss (nowhere h) = nowhere (none_later left i miss h)
  Unique-later {left} {i} miss (twice j k lt le gj gk) =
      twice (suc j) (suc k) (omega arith) (omega arith) (rw (← shift i j) gj) (rw (← shift i k) gk)
  Unique-later {left} {i} miss (once j e lt good only_j) =
      once (suc j) (e ∙ shift i j) (omega arith) good others
    where
      others : (k : ℕ) → k < suc left → gbb_at b size (i + 4 * k) ≡ true → k ≡ suc j
      others zero h g = ground (arith, start i)
      others (suc k) h g = let same : k ≡ j = only_j k (omega arith) (rw shift g) in omega arith

  Unique-here :
      (left i : ℕ)
      → gbb_at b size i ≡ true
      → Unique (suc left) i (the_only (i ∷ good_offsets left (i + 4)))
  unfolding the_only
  Unique-here left i hit = elim (first_good left (i + 4)) [
    | inl (e, none_good) ↦
        rw (e, the_only) (once 0 (sym (start i)) (omega arith) hit (alone none_good))
    | inr (o, l, e, (k, lt, good)) ↦
        rw (e, the_only)
          (twice 0 (suc k) (omega arith) (omega arith) (rw start hit) (rw (← shift i k) good))
  ]
    where
      alone :
          ((j : ℕ) → j < left → gbb_at b size (i + 4 + 4 * j) ≡ false)
          → (k : ℕ) → k < suc left
          → gbb_at b size (i + 4 * k) ≡ true
          → k ≡ 0
      alone h zero lt g = refl
      alone h (suc k) lt g = ground (arith, h k, shift i k)

  the_only-Unique : (left i : ℕ) → Unique left i (the_only (good_offsets left i))
  unfolding good_offsets the_only
  the_only-Unique zero i = nowhere (λ j lt. absurd (omega arith))
  the_only-Unique (suc left) i = elim (Bool-cases (gbb_at b size i)) [
    | inl hit ↦ rw hit (Unique-here left i hit)
    | inr miss ↦ rw miss (Unique-later miss (the_only-Unique left (i + 4)))
  ]

  -- For a file of at least 4 bytes FindGbbHeader looks at the offsets that are multiples of 4 and
  -- leave room for the signature. It gives the one at which there is a valid header, and nothing
  -- where there is none, or more than one.
  pub find_gbb_header-Unique : 4 ≤ size → size < 2 ^ 64 → Unique (size / 4) 0 find_gbb_header
  unfolding find_gbb_header
  find_gbb_header-Unique large small =
      rw (rounds, loop_first (size / 4) 0, only-the_only) (the_only-Unique (size / 4) 0)
    where
      rounds : sub64 size 4 / 4 + 1 ≡ size / 4
      rounds = omega arith

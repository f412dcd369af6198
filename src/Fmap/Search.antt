-- ===== src/Fmap/Search.antt =====
-- The loops of fmap_find, over any test of an offset. `lim` is the last offset at which a header
-- fits, and the bounds on the rounds are counts that the loops cannot reach (`Scan`).
use futility.Prelude.{ℕ, zero, suc, ◌+◌, ◌*◌, ◌/◌, leb, ltb, Bool, true, false, Option, none, some}

-- `for (align = FMAP_SEARCH_STRIDE; align <= lim; align *= 2);`
unfoldable pub grow : ℕ → ℕ → ℕ → ℕ
grow zero lim align = align
grow (suc f) lim align = elim (leb align lim) [ true ↦ grow f lim (align * 2) | false ↦ align ]

module _ (test : ℕ → Bool) (lim : ℕ) where
  -- `for (offset = align; offset <= lim; offset += align * 2)`
  unfoldable pub scan : ℕ → ℕ → ℕ → Option ℕ
  scan zero align offset = none
  scan (suc f) align offset = elim (leb offset lim) [
    | false ↦ none
    | true ↦ elim (test offset) [ true ↦ some offset | false ↦ scan f align (offset + align * 2) ]
  ]

  -- `for (; align >= FMAP_SEARCH_STRIDE; align /= 2)`
  unfoldable pub descend : ℕ → ℕ → Option ℕ
  descend zero align = none
  descend (suc f) align = elim (ltb align 4) [
    | true ↦ none
    | false ↦ elim (scan (suc lim) align align) [
      | some offset ↦ some offset
      | none ↦ descend f (align / 2)
    ]
  ]

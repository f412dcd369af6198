-- ===== src/DumpFmap/Sort.antt =====
-- sort_nodes: an exchange sort of an array of pointers, by falling start. `start` is `ary[i]->start`.
use futility.Prelude.{
  ℕ, zero, suc, ◌≤◌, ltb, List, [], ◌∷◌, if◌then◌else◌, if_cases, length, All, arith, ◌≡◌, refl,
}
use mathlib.Core.List.{Perm}
use mathlib.Core.List.Perm

module _ {A : Type 0} (start : A → ℕ) where
  -- The loop over `j` for the place `i`: the node that stands in it at the end, and what is behind.
  unfoldable pub sweep : A → List A → A × List A
  sweep x [] = (x, [])
  sweep x (y ∷ ary) =
      let swapped = sweep y ary in
      let kept = sweep x ary in
      if ltb (start x) (start y) then (swapped.0, x ∷ swapped.1) else (kept.0, y ∷ kept.1)

  -- The loop over `i`, for `num` places.
  unfoldable pub sort_from : ℕ → List A → List A
  sort_from zero ary = ary
  sort_from (suc num) [] = []
  sort_from (suc num) (x ∷ ary) = let r = sweep x ary in r.0 ∷ sort_from num r.1

  unfoldable pub sort_nodes : List A → List A
  unfolding sort_from
  sort_nodes ary = sort_from (length ary) ary

  -- Nothing in the list starts behind `x`, and the starts fall.
  abbrev pub NoneAbove : A → List A → Type 0
  NoneAbove x [] = Unit {0}
  NoneAbove x (y ∷ ary) = (start y ≤ start x) × NoneAbove x ary

  abbrev pub IsFalling : List A → Type 0
  IsFalling [] = Unit {0}
  IsFalling (x ∷ ary) = NoneAbove x ary × IsFalling ary

  abbrev Swept : A → List A → A × List A → Type 0
  Swept x ary (m, rest) =
      Perm (m ∷ rest) (x ∷ ary)
      × NoneAbove m rest
      × (start x ≤ start m)
      × (length rest ≡ length ary)

  sweep-Swept : (x : A) (ary : List A) → Swept x ary (sweep x ary)
  unfolding sweep
  sweep-Swept x [] = (Perm.refl _, tt, omega arith, refl)
  sweep-Swept x (y ∷ ary) =
      if_cases (Swept x (y ∷ ary)) (ltb (start x) (start y))
        (λ e.
          let (p, none_above, le, len) = sweep-Swept y ary in
          (
            Perm.trans (Perm.swap x (sweep y ary).0 (sweep y ary).1) (Perm.cons x p),
            (ground arith, none_above),
            ground arith,
            omega (arith, len),
          ))
        (λ e.
          let (p, none_above, le, len) = sweep-Swept x ary in
          (
            Perm.trans (Perm.swap y (sweep x ary).0 (sweep x ary).1)
                (Perm.trans (Perm.cons y p) (Perm.swap x y ary)),
            (ground arith, none_above),
            le,
            omega (arith, len),
          ))

  -- What starts no later than `w` stays so.
  Bounded : A → A × List A → Type 0
  Bounded w (m, rest) = (start m ≤ start w) × NoneAbove w rest

  sweep-Bounded :
      (w x : A) (ary : List A) → start x ≤ start w → NoneAbove w ary → Bounded w (sweep x ary)
  unfolding sweep Bounded
  sweep-Bounded w x [] l h = (l, tt)
  sweep-Bounded w x (y ∷ ary) l h =
      if_cases (Bounded w) (ltb (start x) (start y))
        (λ e. let (p, q) = sweep-Bounded w y ary h.0 h.1 in (p, (l, q)))
        (λ e. let (p, q) = sweep-Bounded w x ary l h.1 in (p, (h.0, q)))

  sort_from-NoneAbove :
      (w : A) (num : ℕ) (ary : List A) → NoneAbove w ary → NoneAbove w (sort_from num ary)
  unfolding sort_from Bounded
  sort_from-NoneAbove w zero ary h = h
  sort_from-NoneAbove w (suc num) [] h = tt
  sort_from-NoneAbove w (suc num) (x ∷ ary) h =
      let (p, q) = sweep-Bounded w x ary h.0 h.1 in (p, sort_from-NoneAbove w num (sweep x ary).1 q)

  sort_from-lem :
      (num : ℕ) (ary : List A)
      → length ary ≤ num
      → Perm (sort_from num ary) ary × IsFalling (sort_from num ary)
  unfolding sort_from
  sort_from-lem zero [] h = (Perm.refl _, tt)
  sort_from-lem zero (x ∷ ary) h = absurd (omega arith)
  sort_from-lem (suc num) [] h = (Perm.refl _, tt)
  sort_from-lem (suc num) (x ∷ ary) h =
      let r = sweep x ary in
      let (p, none_above, le, len) = sweep-Swept x ary in
      let (q, falling) = sort_from-lem num r.1 (omega (arith, len)) in
      (Perm.trans (Perm.cons r.0 q) p, (sort_from-NoneAbove r.0 num r.1 none_above, falling))

  -- sort_nodes gives the nodes it is given, in the order of falling starts.
  pub sort_nodes-IsFalling : (ary : List A) → Perm (sort_nodes ary) ary × IsFalling (sort_nodes ary)
  unfolding sort_nodes
  sort_nodes-IsFalling ary = sort_from-lem (length ary) ary (omega arith)

  -- What holds of all the nodes holds of them sorted.
  sweep-All :
      (P : A → Type 0) (x : A) (ary : List A)
      → P x
      → All P ary
      → P (sweep x ary).0 × All P (sweep x ary).1
  unfolding sweep
  sweep-All P x [] h hs = (h, tt)
  sweep-All P x (y ∷ ary) h hs =
      if_cases (λ (r : A × List A). P r.0 × All P r.1) (ltb (start x) (start y))
        (λ e. let (p, q) = sweep-All P y ary hs.0 hs.1 in (p, (h, q)))
        (λ e. let (p, q) = sweep-All P x ary h hs.1 in (p, (hs.0, q)))

  sort_from-All : (P : A → Type 0) (num : ℕ) (ary : List A) → All P ary → All P (sort_from num ary)
  unfolding sort_from
  sort_from-All P zero ary h = h
  sort_from-All P (suc num) [] h = tt
  sort_from-All P (suc num) (x ∷ ary) h =
      let (p, q) = sweep-All P x ary h.0 h.1 in (p, sort_from-All P num (sweep x ary).1 q)

  pub sort_nodes-All : (P : A → Type 0) (ary : List A) → All P ary → All P (sort_nodes ary)
  unfolding sort_nodes
  sort_nodes-All P ary h = sort_from-All P (length ary) ary h

-- ===== src/DumpFmap/Clashes.antt =====
-- When human_fmap stops with an error, and what parents it has found when it does not.
use futility.Prelude.{ℕ, zero, suc, ◌+◌, ◌<◌, ◌≤◌, Bool, true, false, Option, none, some, List}
use futility.Prelude.{
  if◌then◌else◌, get_or, length, ◌≡◌, ◌≢◌, refl, ◌↔◌, inl, inr, arith, compare_with, ◌∙◌,
  Bool-cases,
}
use mathlib.Core.Path.{subst}
use futility.DumpFmap.Nodes.{Node, overlaps}
use futility.DumpFmap.Parent.{
  at, is_error, find_parent, find_parents, parents, Smallest, find_parent-Smallest,
}

count_one : (b : Bool) (n m : ℕ) → (if b then n + 1 else n) + m ≡ n + ((if b then 1 else 0) + m)
count_one true n m = omega arith
count_one false n m = omega arith

module _ (opt_overlap : ℕ) (nodes : List Node) (root : Node) where
  -- Two nodes that overlap, where no option tells to ignore it.
  pub record Clash (i j : ℕ) : Type 0 where
    pub other : j ≢ i
    pub overlap : overlaps (at nodes root i) (at nodes root j) ≡ true
    pub minded : opt_overlap < 2

  is_error→Clash : (i j : ℕ) → is_error opt_overlap nodes root i j ≡ true → Clash i j
  is_error→Clash i j h = record {
    other = λ e. ground arith;
    overlap = ground arith;
    minded = ground arith;
  }

  Clash→is_error : (i j : ℕ) → Clash i j → is_error opt_overlap nodes root i j ≡ true
  Clash→is_error i j c = ground (arith, c.other, c.overlap, c.minded)

  -- The nodes from `j` on, `left` of them, that clash with `i`.
  clashes : ℕ → ℕ → ℕ → ℕ
  clashes i zero j = 0
  clashes i (suc left) j =
      (if is_error opt_overlap nodes root i j then 1 else 0) + clashes i left (j + 1)

  find_parent-clashes :
      (i left j : ℕ) (k : Option ℕ) (errorcnt : ℕ)
      → (find_parent opt_overlap nodes root i left j k errorcnt).1 ≡ errorcnt + clashes i left j
  unfolding find_parent clashes
  find_parent-clashes i zero j k errorcnt = omega arith
  find_parent-clashes i (suc left) j k errorcnt =
      find_parent-clashes i left (j + 1) _ _
      ∙ count_one (is_error opt_overlap nodes root i j) errorcnt (clashes i left (j + 1))

  -- The loop over `i`: `left` rows of clashes.
  all_clashes : ℕ → ℕ → ℕ
  all_clashes zero i = 0
  all_clashes (suc left) i = clashes i (length nodes) 0 + all_clashes left (i + 1)

  find_parents-clashes :
      (left i errorcnt : ℕ)
      → (find_parents opt_overlap nodes root left i errorcnt).1 ≡ errorcnt + all_clashes left i
  unfolding find_parents all_clashes
  find_parents-clashes zero i errorcnt = omega arith
  find_parents-clashes (suc left) i errorcnt = omega (
    arith,
    find_parent-clashes i (length nodes) 0 none errorcnt,
    find_parents-clashes left (i + 1)
        (find_parent opt_overlap nodes root i (length nodes) 0 none errorcnt).1,
  )

  -- Among the nodes `j` to `n`, none clashes with `i`.
  abbrev NoneClash : ℕ → ℕ → ℕ → Type 0
  NoneClash i j n = (m : ℕ) → j ≤ m → m < n → ¬ Clash i m

  clashes→NoneClash : (i left j n : ℕ) → j + left ≡ n → clashes i left j ≡ 0 → NoneClash i j n
  unfolding clashes
  clashes→NoneClash i zero j n e h m l u c = absurd (omega arith)
  clashes→NoneClash i (suc left) j n e h m l u c = elim (compare_with j m) [
    | inl lt ↦ clashes→NoneClash i left (j + 1) n (omega arith) (omega arith) m (omega arith) u c
    | inr (inl eq) ↦ ground (arith, Clash→is_error i m c, eq)
    | inr (inr gt) ↦ absurd (omega arith)
  ]

  NoneClash→clashes : (i left j n : ℕ) → j + left ≡ n → NoneClash i j n → clashes i left j ≡ 0
  unfolding clashes
  NoneClash→clashes i zero j n e h = refl
  NoneClash→clashes i (suc left) j n e h =
      let rest = NoneClash→clashes i left (j + 1) n (omega arith) (λ m l u. h m (omega arith) u) in
      elim (Bool-cases (is_error opt_overlap nodes root i j)) [
        | inl clash ↦ absurd (h j (omega arith) (omega arith) (is_error→Clash i j clash))
        | inr fine ↦ ground arith
      ]

  abbrev NoneClashes : ℕ → ℕ → Type 0
  NoneClashes i n = (i' : ℕ) → i ≤ i' → i' < n → NoneClash i' 0 (length nodes)

  all_clashes→NoneClashes : (left i n : ℕ) → i + left ≡ n → all_clashes left i ≡ 0 → NoneClashes i n
  unfolding all_clashes
  all_clashes→NoneClashes zero i n e h i' l u = absurd (omega arith)
  all_clashes→NoneClashes (suc left) i n e h i' l u = elim (compare_with i i') [
    | inl lt ↦ all_clashes→NoneClashes left (i + 1) n (omega arith) (omega arith) i' (omega arith) u
    | inr (inl eq) ↦
        subst (λ (t : ℕ). NoneClash t 0 (length nodes)) eq
          (clashes→NoneClash i (length nodes) 0 (length nodes) (omega arith) (omega arith))
    | inr (inr gt) ↦ absurd (omega arith)
  ]

  NoneClashes→all_clashes : (left i n : ℕ) → i + left ≡ n → NoneClashes i n → all_clashes left i ≡ 0
  unfolding all_clashes
  NoneClashes→all_clashes zero i n e h = refl
  NoneClashes→all_clashes (suc left) i n e h = omega (
    arith,
    NoneClash→clashes i (length nodes) 0 (length nodes) (omega arith)
        (h i (omega arith) (omega arith)),
    NoneClashes→all_clashes left (i + 1) n (omega arith) (λ i' l u. h i' (omega arith) u),
  )

  -- human_fmap goes on exactly if no two of the nodes overlap where an overlap is minded.
  pub parents_iff :
      ((found : List (Option ℕ)) × (parents opt_overlap nodes root ≡ some found))
      ↔ ((i j : ℕ) → i < length nodes → j < length nodes → ¬ Clash i j)
  unfolding parents
  parents_iff =
      let counted = find_parents-clashes (length nodes) 0 0 in
      (
        (λ (found, e) i j li lj.
            all_clashes→NoneClashes (length nodes) 0 (length nodes) (omega arith) (ground arith) i
              (omega arith) li j (omega arith) lj),
        (λ h.
            let none_clash =
              NoneClashes→all_clashes (length nodes) 0 (length nodes) (omega arith)
                (λ i l u j m v. h i j u v) in
            ((find_parents opt_overlap nodes root (length nodes) 0 0).0, ground arith)),
      )

  find_parents-Smallest :
      (left i errorcnt m : ℕ)
      → m < left
      → Smallest opt_overlap nodes root
          (i + m)
          (length nodes)
          (get_or (find_parents opt_overlap nodes root left i errorcnt).0 m none)
  unfolding find_parents
  find_parents-Smallest zero i errorcnt m l = absurd (omega arith)
  find_parents-Smallest (suc left) i errorcnt zero l =
      let same : i ≡ i + 0 = omega arith in
      let (k, total) = find_parent opt_overlap nodes root i (length nodes) 0 none errorcnt in
      subst (λ (t : ℕ). Smallest opt_overlap nodes root t (length nodes) k) same
        (find_parent-Smallest opt_overlap nodes root i (length nodes) 0 (length nodes) none errorcnt
          (omega arith) (λ j less. absurd (omega arith)))
  find_parents-Smallest (suc left) i errorcnt (suc m) l =
      let (k, total) = find_parent opt_overlap nodes root i (length nodes) 0 none errorcnt in
      let next : i + 1 + m ≡ i + suc m = omega arith in
      subst
        (λ (t : ℕ).
          Smallest opt_overlap nodes root t (length nodes)
            (get_or (find_parents opt_overlap nodes root left (i + 1) total).0 m none))
        next (find_parents-Smallest left (i + 1) total m (omega arith))

  -- The parents found are the smallest nodes that enclose, the first of them; the root, where no
  -- node smaller than it encloses.
  pub parents-Smallest :
      (found : List (Option ℕ)) (i : ℕ)
      → parents opt_overlap nodes root ≡ some found
      → i < length nodes
      → Smallest opt_overlap nodes root i (length nodes) (get_or found i none)
  unfolding parents
  parents-Smallest found i e l =
      let at_i : 0 + i ≡ i = omega arith in
      let same : (find_parents opt_overlap nodes root (length nodes) 0 0).0 ≡ found =
        ground arith in
      subst
        (λ (ks : List (Option ℕ)).
          Smallest opt_overlap nodes root i (length nodes) (get_or ks i none))
        same
        (subst
          (λ (t : ℕ).
            Smallest opt_overlap nodes root t (length nodes)
              (get_or (find_parents opt_overlap nodes root (length nodes) 0 0).0 i none))
          at_i (find_parents-Smallest (length nodes) 0 0 i l))

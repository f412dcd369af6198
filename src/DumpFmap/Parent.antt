-- ===== src/DumpFmap/Parent.antt =====
-- The parents that human_fmap finds, and what it takes for an error.
use futility.Prelude.{
  ℕ, zero, suc, ◌+◌, ◌<◌, ◌≤◌, ◌==◌, ltb, ◌&&◌, not, Bool, true, false, Option, none, some, List,
  [], ◌∷◌,
}
use futility.Prelude.{
  if◌then◌else◌, get_or, length, ◌≡◌, ◌≢◌, refl, inl, inr, arith, compare_with, add-zero_eq,
}
use mathlib.Core.Path.{subst}
use futility.DumpFmap.Nodes.{Node, overlaps, encloses}

-- `all_nodes[k]`; the root is `none`.
abbrev pub at : List Node → Node → ℕ → Node
at nodes root k = get_or nodes k root

abbrev pub parent_node : List Node → Node → Option ℕ → Node
parent_node nodes root none = root
parent_node nodes root (some k) = at nodes root k

module _ (opt_overlap : ℕ) (nodes : List Node) (root : Node) where
  -- `j` is a smaller parent of `i` than the one found so far.
  abbrev pub is_better : ℕ → Option ℕ → ℕ → Bool
  is_better i k j =
      not (j == i)
      && not (overlaps (at nodes root i) (at nodes root j))
      && encloses (at nodes root j) (at nodes root i)
      && ltb (at nodes root j).size (parent_node nodes root k).size

  -- `i` and `j` overlap, and the options do not tell to ignore it.
  abbrev pub is_error : ℕ → ℕ → Bool
  is_error i j = not (j == i) && overlaps (at nodes root i) (at nodes root j) && ltb opt_overlap 2

  -- The loop over `j` for the node `i`, with `left` rounds to go: `k`, and errorcnt.
  unfoldable pub find_parent : ℕ → ℕ → ℕ → Option ℕ → ℕ → Option ℕ × ℕ
  find_parent i zero j k errorcnt = (k, errorcnt)
  find_parent i (suc left) j k errorcnt =
      find_parent i left (j + 1) (if is_better i k j then some j else k)
        (if is_error i j then errorcnt + 1 else errorcnt)

  -- The loop over `i`: the parents, and errorcnt.
  unfoldable pub find_parents : ℕ → ℕ → ℕ → List (Option ℕ) × ℕ
  find_parents zero i errorcnt = ([], errorcnt)
  find_parents (suc left) i errorcnt =
      let (k, errorcnt') = find_parent i (length nodes) 0 none errorcnt in
      let (parents, total) = find_parents left (i + 1) errorcnt' in (k ∷ parents, total)

  -- The parents of all the nodes; `none` is the early `return 1`.
  unfoldable pub parents : Option (List (Option ℕ))
  unfolding find_parents
  parents =
      let (found, errorcnt) = find_parents (length nodes) 0 0 in
      if errorcnt == 0 then some found else none

  -- A node that may be the parent of `i`: it does not overlap it, encloses it, and is smaller than
  -- the root.
  pub record Candidate (i j : ℕ) : Type 0 where
    pub other : j ≢ i
    pub apart : overlaps (at nodes root i) (at nodes root j) ≡ false
    pub around : encloses (at nodes root j) (at nodes root i) ≡ true
    pub smaller : (at nodes root j).size < root.size

  -- The parent of `i` among the nodes below `n`: the smallest candidate, the first of those.
  abbrev pub Smallest : ℕ → ℕ → Option ℕ → Type 0
  Smallest i n none = (j : ℕ) → j < n → ¬ Candidate i j
  Smallest i n (some k) =
      (k < n)
      × Candidate i k
      × ((j : ℕ)
          → j < n
          → Candidate i j
          → ((at nodes root k).size ≤ (at nodes root j).size)
            × (j < k → (at nodes root k).size < (at nodes root j).size))

  better-Smallest :
      (i m : ℕ) (k : Option ℕ)
      → is_better i k m ≡ true
      → Smallest i m k
      → Smallest i (m + 1) (some m)
  better-Smallest i m none better h =
      let c : Candidate i m = record {
        other = λ e. ground arith;
        apart = ground arith;
        around = ground arith;
        smaller = ground arith;
      } in
      (
        omega arith,
        c,
        λ j l cand. elim (compare_with j m) [
          | inl lt ↦ absurd (h j lt cand)
          | inr (inl e) ↦ (rw e (omega arith), λ lt. absurd (omega arith))
          | inr (inr gt) ↦ absurd (omega arith)
        ],
      )
  better-Smallest i m (some k) better (lk, ck, all) =
      let c : Candidate i m = record {
        other = λ e. ground arith;
        apart = ground arith;
        around = ground arith;
        smaller = ground (arith, ck.smaller);
      } in
      (
        omega arith,
        c,
        λ j l cand. elim (compare_with j m) [
          | inl lt ↦ let (le, _) = all j lt cand in (ground arith, λ lt. ground arith)
          | inr (inl e) ↦ (rw e (omega arith), λ lt. absurd (omega arith))
          | inr (inr gt) ↦ absurd (omega arith)
        ],
      )

  not_better :
      (i m : ℕ) (k : Option ℕ)
      → is_better i k m ≡ false
      → Candidate i m
      → (parent_node nodes root k).size ≤ (at nodes root m).size
  not_better i m k worse c = ground (arith, c.other)

  worse-Smallest :
      (i m : ℕ) (k : Option ℕ) → is_better i k m ≡ false → Smallest i m k → Smallest i (m + 1) k
  worse-Smallest i m none worse h = λ j l cand. elim (compare_with j m) [
    | inl lt ↦ h j lt cand
    | inr (inl e) ↦
        let c : Candidate i m = subst (Candidate i) e cand in
        omega (arith, not_better i m none worse c, c.smaller)
    | inr (inr gt) ↦ omega arith
  ]
  worse-Smallest i m (some k) worse (lk, ck, all) = (
    omega arith,
    ck,
    λ j l cand. elim (compare_with j m) [
      | inl lt ↦ all j lt cand
      | inr (inl e) ↦
          let c : Candidate i m = subst (Candidate i) e cand in
          rw e (not_better i m (some k) worse c, λ lt. absurd (omega arith))
      | inr (inr gt) ↦ absurd (omega arith)
    ],
  )

  round-Smallest :
      (i m : ℕ) (k : Option ℕ) (better : Bool)
      → is_better i k m ≡ better
      → Smallest i m k
      → Smallest i (m + 1) (if better then some m else k)
  round-Smallest i m k true e h = better-Smallest i m k e h
  round-Smallest i m k false e h = worse-Smallest i m k e h

  pub find_parent-Smallest :
      (i left j n : ℕ) (k : Option ℕ) (errorcnt : ℕ)
      → j + left ≡ n
      → Smallest i j k
      → Smallest i n (find_parent i left j k errorcnt).0
  unfolding find_parent
  find_parent-Smallest i zero j n k errorcnt e h =
      subst (λ (t : ℕ). Smallest i t k) (add-zero_eq j n e) h
  find_parent-Smallest i (suc left) j n k errorcnt e h =
      find_parent-Smallest i left (j + 1) n _ _ (omega arith)
        (round-Smallest i j k (is_better i k j) refl h)

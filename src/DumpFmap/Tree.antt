-- ===== src/DumpFmap/Tree.antt =====
-- What the parents that human_fmap finds say of the regions.
use futility.Prelude.{ℕ, ◌+◌, ◌<◌, ◌≤◌, true, false, Option, none, some, List}
use futility.Prelude.{get_or, length, ◌≡◌, ◌≢◌, ◌⊎◌, inl, inr, arith, sym, compare_with, Bool-cases}
use mathlib.Core.Path.{subst}
use futility.DumpFmap.Nodes.{Node, overlaps, encloses, duplicates}
use futility.DumpFmap.Parent.{at, Candidate, Smallest, parents}
use futility.DumpFmap.Clashes.{parents_iff, parents-Smallest}

module _ (nodes : List Node) (root : Node) where
  -- The sums of starts and sizes do not wrap, and no two nodes have the same region.
  pub record AreRegions : Type 0 where
    pub whole :
        (i : ℕ)
        → i < length nodes
        → (at nodes root i).end ≡ (at nodes root i).start + (at nodes root i).size
    pub distinct :
        (i j : ℕ)
        → i < length nodes
        → j < length nodes
        → i ≢ j
        → duplicates (at nodes root i) (at nodes root j) ≡ false

  -- A node that encloses another is larger.
  encloses-lt :
      (p : AreRegions) (i j : ℕ)
      → i < length nodes
      → j < length nodes
      → i ≢ j
      → encloses (at nodes root j) (at nodes root i) ≡ true
      → (at nodes root i).size < (at nodes root j).size
  unfolding encloses duplicates
  encloses-lt p i j li lj ne h = ground (arith, p.whole i li, p.whole j lj, p.distinct i j li lj ne)

  -- A parent other than the root is larger than its child.
  pub parent-lt :
      (p : AreRegions) (opt_overlap i k : ℕ)
      → i < length nodes
      → Smallest opt_overlap nodes root i (length nodes) (some k)
      → (at nodes root i).size < (at nodes root k).size
  parent-lt p opt_overlap i k li (lk, c, all) =
      encloses-lt p i k li lk (λ e. c.other (sym e)) c.around

  -- The regions of two nodes share no byte.
  abbrev pub Disjoint : ℕ → ℕ → Type 0
  Disjoint i j =
      ((at nodes root i).end ≤ (at nodes root j).start)
      ⊎ ((at nodes root j).end ≤ (at nodes root i).start)

  -- No two nodes overlap.
  abbrev IsApart : Type 0
  IsApart =
      (i j : ℕ)
      → i < length nodes
      → j < length nodes
      → overlaps (at nodes root i) (at nodes root j) ≡ false

  meet_or_enclose :
      (i j : ℕ)
      → IsApart
      → i < length nodes
      → j < length nodes
      → Disjoint i j
        ⊎ ((encloses (at nodes root i) (at nodes root j) ≡ true)
            ⊎ (encloses (at nodes root j) (at nodes root i) ≡ true))
  unfolding encloses overlaps
  meet_or_enclose i j apart li lj = ground (arith, apart i j li lj, apart j i lj li)

  -- A node that encloses another, with a parent of its own, has not the other as a sibling.
  enclosed_elsewhere :
      (p : AreRegions) (apart : IsApart) (opt_overlap i j : ℕ) (k : Option ℕ)
      → i < length nodes
      → j < length nodes
      → i ≢ j
      → (at nodes root i).size < root.size
      → Smallest opt_overlap nodes root i (length nodes) k
      → Smallest opt_overlap nodes root j (length nodes) k
      → ¬ (encloses (at nodes root i) (at nodes root j) ≡ true)
  enclosed_elsewhere p apart opt_overlap i j none li lj ne small si sj h =
      sj i li (record { other = ne; apart = apart j i lj li; around = h; smaller = small })
  enclosed_elsewhere p apart opt_overlap i j (some k) li lj ne small si sj h =
      let c : Candidate opt_overlap nodes root j i = record {
        other = ne;
        apart = apart j i lj li;
        around = h;
        smaller = small;
      } in
      let (le, earlier) = sj.2 i li c in omega (arith, parent-lt p opt_overlap i k li si)

  parents-IsApart :
      (opt_overlap : ℕ) (found : List (Option ℕ))
      → opt_overlap < 2
      → parents opt_overlap nodes root ≡ some found
      → IsApart
  unfolding overlaps
  parents-IsApart opt_overlap found minded e i j li lj =
      let none_clash = (parents_iff opt_overlap nodes root).0 (found, e) i j li lj in
      elim (compare_with i j) [
        | inl lt ↦ elim (Bool-cases (overlaps (at nodes root i) (at nodes root j))) [
          | inl o ↦
              absurd
                (none_clash (record { other = λ q. omega arith; overlap = o; minded = minded }))
          | inr o ↦ o
        ]
        | inr (inl same) ↦ rw same (ground arith)
        | inr (inr gt) ↦ elim (Bool-cases (overlaps (at nodes root i) (at nodes root j))) [
          | inl o ↦
              absurd
                (none_clash (record { other = λ q. omega arith; overlap = o; minded = minded }))
          | inr o ↦ o
        ]
      ]

  -- Where overlaps are minded, the regions of two nodes with the same parent share no byte, if each
  -- is smaller than the root.
  pub siblings-Disjoint :
      (opt_overlap : ℕ) (found : List (Option ℕ)) (i j : ℕ)
      → AreRegions
      → opt_overlap < 2
      → parents opt_overlap nodes root ≡ some found
      → i < length nodes
      → j < length nodes
      → i ≢ j
      → get_or found i none ≡ get_or found j none
      → (at nodes root i).size < root.size
      → (at nodes root j).size < root.size
      → Disjoint i j
  siblings-Disjoint opt_overlap found i j p minded e li lj ne same small_i small_j =
      let apart = parents-IsApart opt_overlap found minded e in
      let si = parents-Smallest opt_overlap nodes root found i e li in
      let sj =
        subst (Smallest opt_overlap nodes root j (length nodes)) (sym same)
          (parents-Smallest opt_overlap nodes root found j e lj) in
      let k = get_or found i none in
      elim (meet_or_enclose i j apart li lj) [
        | inl disjoint ↦ disjoint
        | inr (inl around) ↦
            absurd (enclosed_elsewhere p apart opt_overlap i j k li lj ne small_i si sj around)
        | inr (inr around) ↦ absurd (
            enclosed_elsewhere p apart opt_overlap j i k lj li (λ q. ne (sym q)) small_j sj si
              around)
      ]

-- ===== src/DumpFmap/Whole.antt =====
-- human_fmap as a whole, from the bytes of a flash map.
use futility.Prelude.{
  ℕ, zero, suc, ◌+◌, ◌^◌, ◌<◌, ◌≤◌, Bool, false, none, List, [], ◌∷◌, All, if_cases, length, ◌≡◌,
  ◌≢◌, refl, arith, Option-cases, inl, inr, ◌∙◌,
}
use futility.Prelude.Memory.{Bytes, le32, le32-lt, IsBytes}
use futility.Fmap.Defs.{fmap_nareas, area_at}
use futility.DumpFmap.Nodes.{Node, area_node, area_nodes, root_node, duplicates}
use futility.DumpFmap.Coalesce.{add_alias, absorb, coalesce}
use futility.DumpFmap.Distinct.{count_duplicates, AtMost, coalesce-AtMost, duplicates_symm}
use futility.DumpFmap.Parent.{at, parents}
use futility.DumpFmap.Tree.{AreRegions}
use futility.DumpFmap.Show.{human_fmap, show}
use futility.DumpFmap.Depth.{show-some}

-- The sum of start and size does not wrap, and both are uint32_t values.
abbrev pub IsWhole : Node → Type 0
IsWhole x = (x.end ≡ x.start + x.size) × (x.size < 2 ^ 32)

absorb-IsWhole :
    (x : Node) (nodes : List Node)
    → IsWhole x
    → All IsWhole nodes
    → IsWhole (absorb x nodes).0 × All IsWhole (absorb x nodes).1
unfolding absorb
absorb-IsWhole x [] h hs = (h, tt)
absorb-IsWhole x (y ∷ []) h hs =
    if_cases (λ (r : Node × List Node). IsWhole r.0 × All IsWhole r.1) (duplicates x y)
      (λ e. (h, tt)) (λ e. (h, hs))
absorb-IsWhole x (y ∷ z ∷ nodes) h hs =
    if_cases (λ (r : Node × List Node). IsWhole r.0 × All IsWhole r.1) (duplicates x y)
      (λ e. let (p, q) = absorb-IsWhole (add_alias x y) nodes h hs.1.1 in (p, (hs.1.0, q)))
      (λ e. let (p, q) = absorb-IsWhole x (z ∷ nodes) h hs.1 in (p, (hs.0, q)))

coalesce-IsWhole :
    (left : ℕ) (nodes : List Node) → All IsWhole nodes → All IsWhole (coalesce left nodes)
unfolding coalesce
coalesce-IsWhole zero nodes h = h
coalesce-IsWhole (suc left) [] h = tt
coalesce-IsWhole (suc left) (x ∷ nodes) h =
    let (p, q) = absorb-IsWhole x nodes h.0 h.1 in (p, coalesce-IsWhole left (absorb x nodes).1 q)

pub at-All :
    (P : Node → Type 0) (nodes : List Node) (root : Node) (i : ℕ)
    → All P nodes
    → i < length nodes
    → P (at nodes root i)
at-All P [] root i h l = absurd (omega arith)
at-All P (x ∷ nodes) root zero h l = h.0
at-All P (x ∷ nodes) root (suc i) h l = at-All P nodes root i h.1 (omega arith)

none_alike :
    (x : Node) (nodes : List Node) (root : Node) (i : ℕ)
    → count_duplicates x nodes ≤ 0
    → i < length nodes
    → duplicates x (at nodes root i) ≡ false
unfolding count_duplicates
none_alike x [] root i h l = absurd (omega arith)
none_alike x (y ∷ nodes) root zero h l = ground arith
none_alike x (y ∷ nodes) root (suc i) h l = none_alike x nodes root i (omega arith) (omega arith)

pub AtMost-distinct :
    (nodes : List Node) (root : Node) (i j : ℕ)
    → AtMost 0 nodes
    → i < length nodes
    → j < length nodes
    → i ≢ j
    → duplicates (at nodes root i) (at nodes root j) ≡ false
AtMost-distinct [] root i j h li lj ne = absurd (omega arith)
AtMost-distinct (x ∷ nodes) root zero zero h li lj ne = absurd (ne refl)
AtMost-distinct (x ∷ nodes) root zero (suc j) h li lj ne =
    none_alike x nodes root j h.0 (omega arith)
AtMost-distinct (x ∷ nodes) root (suc i) zero h li lj ne =
    duplicates_symm (at nodes root i) x ∙ none_alike x nodes root i h.0 (omega arith)
AtMost-distinct (x ∷ nodes) root (suc i) (suc j) h li lj ne =
    AtMost-distinct nodes root i j h.1 (omega arith) (omega arith) (λ e. omega arith)

-- The areas of the flash map: their ends do not wrap, and no three share a region.
pub record AreAreas (b : Bytes) (fmap : ℕ) : Type 0 where
  pub inside :
      (i : ℕ)
      → i < fmap_nareas b fmap
      → le32 b (area_at fmap i) + le32 b (area_at fmap i + 4) < 2 ^ 32
  pub pairs : AtMost 1 (area_nodes b fmap (fmap_nareas b fmap) 0)

area_nodes-IsWhole :
    (b : Bytes) (fmap left i n : ℕ)
    → IsBytes b
    → i + left ≡ n
    → ((m : ℕ) → m < n → le32 b (area_at fmap m) + le32 b (area_at fmap m + 4) < 2 ^ 32)
    → All IsWhole (area_nodes b fmap left i)
unfolding area_nodes area_node
area_nodes-IsWhole b fmap zero i n bytes e h = tt
area_nodes-IsWhole b fmap (suc left) i n bytes e h = (
  (omega (arith, h i (omega arith)), le32-lt b (area_at fmap i + 4) bytes),
  area_nodes-IsWhole b fmap left (i + 1) n bytes (omega arith) h,
)

module _ (b : Bytes) (fmap : ℕ) where
  -- The nodes that human_fmap shows.
  unfoldable pub shown_nodes : List Node
  shown_nodes =
      let areas = area_nodes b fmap (fmap_nareas b fmap) 0 in coalesce (length areas) areas

  pub shown-IsWhole : IsBytes b → AreAreas b fmap → All IsWhole shown_nodes
  unfolding shown_nodes
  shown-IsWhole bytes h =
      coalesce-IsWhole _ _
        (area_nodes-IsWhole b fmap (fmap_nareas b fmap) 0 _ bytes (omega arith) h.inside)

  pub shown-AreRegions : IsBytes b → AreAreas b fmap → AreRegions shown_nodes (root_node b fmap)
  unfolding shown_nodes
  shown-AreRegions bytes h = record {
    whole = λ i l. (at-All IsWhole shown_nodes (root_node b fmap) i (shown-IsWhole bytes h) l).0;
    distinct = λ i j li lj ne.
        AtMost-distinct shown_nodes (root_node b fmap) i j
          (coalesce-AtMost (length (area_nodes b fmap (fmap_nareas b fmap) 0)) _ (omega arith)
            h.pairs)
          li lj ne;
  }

  -- human_fmap ends on every flash map whose areas do not wrap and of which no three share a region:
  -- calls of show that are at most 2^32 + 1 deep are enough.
  pub human_fmap-some :
      (fuel opt_overlap : ℕ) (opt_gaps : Bool)
      → IsBytes b
      → AreAreas b fmap
      → 2 ^ 32 ≤ fuel
      → human_fmap (suc fuel) opt_overlap opt_gaps b fmap ≢ none
  unfolding human_fmap shown_nodes
  human_fmap-some fuel opt_overlap opt_gaps bytes h enough e =
      let root = root_node b fmap in
      elim (Option-cases (parents opt_overlap shown_nodes root)) [
        | inl failed ↦ ground arith
        | inr (found, ok) ↦
            let ends =
              show-some shown_nodes root found (shown-AreRegions bytes h) opt_overlap ok fuel 0
                opt_gaps
                (λ i l.
                  omega (arith, (at-All IsWhole shown_nodes root i (shown-IsWhole bytes h) l).1)) in
            elim (Option-cases (show shown_nodes root found (suc fuel) none 0 opt_gaps)) [
              | inl stuck ↦ ends stuck
              | inr (lines, shown) ↦ ground arith
            ]
      ]

-- ===== src/DumpFmap/Depth.antt =====
-- show ends: each child is smaller than its parent.
use futility.Prelude.{ℕ, zero, suc, ◌+◌, ◌<◌, Bool, true, Option, none, some, List, [], ◌∷◌, All}
use futility.Prelude.{
  if◌then◌else◌, if_cases, get_or, length, ◌≡◌, ◌≢◌, refl, arith, Option-cases, inl, inr,
}
use mathlib.Core.Path.{subst}
use futility.DumpFmap.Nodes.{Node}
use futility.DumpFmap.Parent.{at, parent_node, parents, Smallest}
use futility.DumpFmap.Clashes.{parents-Smallest}
use futility.DumpFmap.Sort.{sort_nodes-All}
use futility.DumpFmap.Tree.{AreRegions, parent-lt}
use futility.DumpFmap.Show.{Line, same_parent, add_children, children, show_each, show}

same_parent→≡ : (p q : Option ℕ) → same_parent p q ≡ true → p ≡ q
same_parent→≡ none none h = refl
same_parent→≡ none (some k) h = cc
same_parent→≡ (some k) none h = cc
same_parent→≡ (some k) (some j) h = ground arith

module _ (nodes : List Node) (root : Node) (found : List (Option ℕ)) where
  -- The nodes with the parent `p`.
  abbrev pub IsChild : Option ℕ → ℕ → Type 0
  IsChild p c = (c < length nodes) × (get_or found c none ≡ p)

  add_children-IsChild :
      (left i : ℕ) (p : Option ℕ)
      → i + left ≡ length nodes
      → All (IsChild p) (add_children nodes root found left i p)
  unfolding add_children
  add_children-IsChild zero i p e = tt
  add_children-IsChild (suc left) i p e =
      let rest = add_children-IsChild left (i + 1) p (omega arith) in
      if_cases (All (IsChild p)) (same_parent (get_or found i none) p)
        (λ h. ((omega arith, same_parent→≡ (get_or found i none) p h), rest)) (λ h. rest)

  pub children-IsChild : (p : Option ℕ) → All (IsChild p) (children nodes root found p)
  unfolding children
  children-IsChild p =
      sort_nodes-All (λ i. (at nodes root i).start) (IsChild p) _
        (add_children-IsChild (length nodes) 0 p (omega arith))

  show_each-some :
      (sub : ℕ → Option (List Line)) (p : Node) (indent : ℕ) (cs : List ℕ)
      → All (λ (c : ℕ). sub c ≢ none) cs
      → show_each nodes root found sub p indent cs ≢ none
  unfolding show_each
  show_each-some sub p indent [] h e = cc
  show_each-some sub p indent (c ∷ []) h e = elim (Option-cases (sub c)) [
    | inl stuck ↦ h.0 stuck
    | inr (lines, shown) ↦ ground arith
  ]
  show_each-some sub p indent (c ∷ d ∷ cs) h e = elim (Option-cases (sub c)) [
    | inl stuck ↦ h.0 stuck
    | inr (lines, shown) ↦ elim (Option-cases (show_each nodes root found sub p indent (d ∷ cs))) [
      | inl stuck ↦ show_each-some sub p indent (d ∷ cs) h.1 stuck
      | inr (rest, all_shown) ↦ ground arith
    ]
  ]

  All-imp : (P Q : ℕ → Type 0) (cs : List ℕ) → ((c : ℕ) → P c → Q c) → All P cs → All Q cs
  All-imp P Q [] h hs = tt
  All-imp P Q (c ∷ cs) h hs = (h c hs.0, All-imp P Q cs h hs.1)

  -- show is as deep as the deepest of the calls for the children, and one.
  show-suc :
      (fuel : ℕ) (p : Option ℕ) (indent : ℕ) (show_first : Bool)
      → ((c indent' : ℕ) → IsChild p c → show nodes root found fuel (some c) indent' true ≢ none)
      → show nodes root found (suc fuel) p indent show_first ≢ none
  unfolding show
  show-suc fuel p indent show_first h e =
      let sub = λ (c : ℕ).
        show nodes root found fuel (some c) (if show_first then indent + 1 else indent) true in
      let cs = children nodes root found p in
      let all_shown = show_each-some sub (parent_node nodes root p) indent cs (
        All-imp (IsChild p) (λ (c : ℕ). sub c ≢ none) cs
          (λ c child. h c (if show_first then indent + 1 else indent) child)
          (children-IsChild p)) in
      elim (Option-cases (show_each nodes root found sub (parent_node nodes root p) indent cs)) [
        | inl stuck ↦ all_shown stuck
        | inr (rest, shown) ↦ ground arith
      ]

  module _ (regions : AreRegions nodes root) (opt_overlap : ℕ)
      (e : parents opt_overlap nodes root ≡ some found) where
    child-lt : (k c : ℕ) → IsChild (some k) c → (at nodes root c).size < (at nodes root k).size
    child-lt k c (less, of_k) = parent-lt nodes root regions opt_overlap c k less (
        subst (Smallest opt_overlap nodes root c (length nodes)) of_k
          (parents-Smallest opt_overlap nodes root found c e less))

    show_node-some :
        (fuel k indent : ℕ)
        → (at nodes root k).size < fuel
        → show nodes root found fuel (some k) indent true ≢ none
    show_node-some zero k indent h = absurd (omega arith)
    show_node-some (suc fuel) k indent h =
        show-suc fuel (some k) indent true
          (λ c indent' child. show_node-some fuel c indent' (omega (arith, child-lt k c child)))

    -- show ends, with calls no deeper than the size of the largest area, and one more for the root.
    pub show-some :
        (fuel indent : ℕ) (show_first : Bool)
        → ((i : ℕ) → i < length nodes → (at nodes root i).size < fuel)
        → show nodes root found (suc fuel) none indent show_first ≢ none
    show-some fuel indent show_first h =
        show-suc fuel none indent show_first
          (λ c indent' child. show_node-some fuel c indent' (h c child.0))

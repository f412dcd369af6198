-- ===== src/DumpFmap/Shown.antt =====
-- show shows every node.
use futility.Prelude.{
  ℕ, zero, suc, ◌+◌, ◌<◌, ◌≤◌, ltb, Bool, true, Option, none, some, List, [], ◌∷◌, ◌++◌,
  if◌then◌else◌, if_cases, get_or, length, ◌≡◌, ◌⊎◌, refl, arith, Option-cases, inl, inr,
  compare_with, sym, ◌∙◌,
}
use mathlib.Core.Path.{subst}
use mathlib.Core.List.{append_assoc}
use futility.DumpFmap.Nodes.{Node}
use futility.DumpFmap.Parent.{at, parent_node, parents, Smallest}
use futility.DumpFmap.Clashes.{parents-Smallest}
use futility.DumpFmap.Tree.{AreRegions, parent-lt}
use futility.DumpFmap.Sort.{sweep, sort_from, sort_nodes}
use futility.DumpFmap.Depth.{IsChild}
use futility.DumpFmap.Show.{
  Line, same_parent, own_lines, gap_between, top_gap, add_children, children, show_each, show,
}

-- The lines `ls` stand in `lines`, in one piece.
pub record Within (ls lines : List Line) : Type 0 where
  pub before : List Line
  pub after : List Line
  pub joined : lines ≡ before ++ (ls ++ after)

Within-trans : {ls ms ns : List Line} → Within ls ms → Within ms ns → Within ls ns
Within-trans u v = record {
  before = v.before ++ u.before;
  after = u.after ++ v.after;
  joined = v.joined ∙ rw u.joined (simp append_assoc);
}

Within-behind : (pre : List Line) {ls ms : List Line} → Within ls ms → Within ls (pre ++ ms)
Within-behind pre u = record {
  before = pre ++ u.before;
  after = u.after;
  joined = rw u.joined (simp append_assoc);
}

Within-first : (ls rest : List Line) → Within ls (ls ++ rest)
Within-first ls rest = record { before = []; after = rest; joined = refl }

-- The item `a` stands in the list.
abbrev Among : {A : Type 0} → A → List A → Type 0
Among a [] = ⊥
Among a (x ∷ xs) = (a ≡ x) ⊎ Among a xs

module _ {A : Type 0} (start : A → ℕ) (a : A) where
  sweep-Among :
      (x : A) (ary : List A)
      → Among a (x ∷ ary)
      → Among a ((sweep start x ary).0 ∷ (sweep start x ary).1)
  unfolding sweep
  sweep-Among x [] h = h
  sweep-Among x (y ∷ ary) h =
      if_cases (λ (r : A × List A). Among a (r.0 ∷ r.1)) (ltb (start x) (start y))
        (λ e. past (sweep start y ary) x (y ∷ ary) (sweep-Among y ary) h)
        (λ e. past (sweep start x ary) y (x ∷ ary) (sweep-Among x ary) (flip h))
    where
      flip : Among a (x ∷ y ∷ ary) → Among a (y ∷ x ∷ ary)
      flip (inl e) = inr (inl e)
      flip (inr (inl e)) = inl e
      flip (inr (inr m)) = inr (inr m)

      past :
          (r : A × List A) (z : A) (l : List A)
          → (Among a l → Among a (r.0 ∷ r.1))
          → Among a (z ∷ l)
          → Among a (r.0 ∷ z ∷ r.1)
      past r z l f (inl e) = inr (inl e)
      past r z l f (inr m) = elim (f m) [ inl e ↦ inl e | inr m' ↦ inr (inr m') ]

  sort_from-Among : (num : ℕ) (ary : List A) → Among a ary → Among a (sort_from start num ary)
  unfolding sort_from
  sort_from-Among zero ary h = h
  sort_from-Among (suc num) [] h = h
  sort_from-Among (suc num) (x ∷ ary) h = elim (sweep-Among x ary h) [
    | inl e ↦ inl e
    | inr m ↦ inr (sort_from-Among num (sweep start x ary).1 m)
  ]

same_parent_self : (p : Option ℕ) → same_parent p p ≡ true
same_parent_self none = refl
same_parent_self (some k) = ground arith

module _ (nodes : List Node) (root : Node) (found : List (Option ℕ)) where
  add_children-Among :
      (left i c : ℕ) (p : Option ℕ)
      → i ≤ c
      → c < i + left
      → get_or found c none ≡ p
      → Among c (add_children nodes root found left i p)
  unfolding add_children
  add_children-Among zero i c p l u e = absurd (omega arith)
  add_children-Among (suc left) i c p l u e = elim (compare_with i c) [
    | inl lt ↦
        let m = add_children-Among left (i + 1) c p (omega arith) (omega arith) e in
        if_cases (Among c) (same_parent (get_or found i none) p) (λ h. inr m) (λ h. m)
    | inr (inl eq) ↦
        let yes_child : same_parent (get_or found i none) p ≡ true =
          rw (eq, e) (same_parent_self p) in
        rw yes_child (inl (sym eq))
    | inr (inr gt) ↦ absurd (omega arith)
  ]

  children-Among :
      (c : ℕ) (p : Option ℕ) → IsChild nodes root found p c → Among c (children nodes root found p)
  unfolding children sort_nodes
  children-Among c p (l, e) =
      sort_from-Among (λ i. (at nodes root i).start) c _ _
        (add_children-Among (length nodes) 0 c p (omega arith) (omega arith) e)

  -- What the call for a child shows stands in what the loop shows.
  show_each-Within :
      (sub : ℕ → Option (List Line)) (p : Node) (indent : ℕ) (cs : List ℕ) (c : ℕ)
      (lines : List Line)
      → Among c cs
      → show_each nodes root found sub p indent cs ≡ some lines
      → (ls : List Line) × (sub c ≡ some ls) × Within ls lines
  unfolding show_each
  show_each-Within sub p indent [] c lines h e = absurd h
  show_each-Within sub p indent (d ∷ []) c lines h e = elim (Option-cases (sub d)) [
    | inl stuck ↦ absurd (ground arith)
    | inr (ls, shown) ↦
        let cut : lines ≡ ls ++ gap_between indent p.name p.start (at nodes root d).start =
          ground arith in
        elim h [ inl same ↦ (ls, rw same shown, rw cut (Within-first _ _)) | inr m ↦ absurd m ]
  ]
  show_each-Within sub p indent (d ∷ d' ∷ cs) c lines h e = elim (Option-cases (sub d)) [
    | inl stuck ↦ absurd (ground arith)
    | inr (ls, shown) ↦ elim (Option-cases (show_each nodes root found sub p indent (d' ∷ cs))) [
      | inl stuck ↦ absurd (ground arith)
      | inr (rest, others) ↦
          let between = gap_between indent p.name (at nodes root d').end (at nodes root d).start in
          let cut : lines ≡ ls ++ (between ++ rest) = ground arith in
          elim h [
            | inl same ↦ (ls, rw same shown, rw cut (Within-first _ _))
            | inr m ↦
                let (ls', shown', w) = show_each-Within sub p indent (d' ∷ cs) c rest m others in
                (ls', shown', rw cut (Within-behind ls (Within-behind between w)))
          ]
    ]
  ]

  -- One call of show: its own lines, and those of the calls for its children.
  show-Within :
      (fuel : ℕ) (p : Option ℕ) (indent : ℕ) (show_first : Bool) (lines : List Line)
      → show nodes root found (suc fuel) p indent show_first ≡ some lines
      → (c : ℕ) → IsChild nodes root found p c
      → (indent' : ℕ) × (ls : List Line) × (show nodes root found fuel (some c) indent' true
          ≡ some ls)
        × Within ls lines
  unfolding show
  show-Within fuel p indent show_first lines e c child =
      let node = parent_node nodes root p in
      let cs = children nodes root found p in
      let indent' = (if show_first then indent + 1 else indent) in
      let sub = λ (d : ℕ). show nodes root found fuel (some d) indent' true in
      elim (Option-cases (show_each nodes root found sub node indent cs)) [
        | inl stuck ↦ absurd (ground arith)
        | inr (rest, shown) ↦
            let own = (if show_first then own_lines indent node else []) in
            let cut : lines ≡ own ++ (top_gap nodes root found node indent cs ++ rest) =
              ground arith in
            let (ls, shown', w) =
              show_each-Within sub node indent cs c rest (children-Among c p child) shown in
            (indent', ls, shown', rw cut (Within-behind _ (Within-behind _ w)))
      ]

  show-own_lines :
      (fuel k indent : ℕ) (lines : List Line)
      → show nodes root found fuel (some k) indent true ≡ some lines
      → Within (own_lines indent (at nodes root k)) lines
  unfolding show
  show-own_lines zero k indent lines e = absurd (ground arith)
  show-own_lines (suc fuel) k indent lines e =
      let node = at nodes root k in
      let cs = children nodes root found (some k) in
      elim (Option-cases (
        show_each nodes root found
          (λ (d : ℕ). show nodes root found fuel (some d) (indent + 1) true) node indent cs)) [
            | inl stuck ↦ absurd (ground arith)
            | inr (rest, shown) ↦
                let cut : lines
                    ≡ own_lines indent node ++ (top_gap nodes root found node indent cs ++ rest) =
                  ground arith in
                rw cut (Within-first _ _)
          ]

  module _ (regions : AreRegions nodes root) (opt_overlap : ℕ)
      (ok : parents opt_overlap nodes root ≡ some found) (fuel indent : ℕ) (show_first : Bool)
      (lines : List Line) (e : show nodes root found fuel none indent show_first ≡ some lines) where
    -- Some call of show was for the node, and what it showed is in the output.
    abbrev IsReached : ℕ → Type 0
    IsReached i =
        (depth : ℕ) × (indent' : ℕ) × (ls : List Line) × (show nodes root found depth (some i)
            indent' true
          ≡ some ls)
        × Within ls lines

    IsReached-below : (i k : ℕ) → IsChild nodes root found (some k) i → IsReached k → IsReached i
    unfolding show
    IsReached-below i k child (zero, indent', ls, shown, w) = absurd (ground arith)
    IsReached-below i k child (suc depth, indent', ls, shown, w) =
        let (indent'', ls', shown', w') =
          show-Within depth (some k) indent' true ls shown i child in
        (depth, indent'', ls', shown', Within-trans w' w)

    IsReached-first :
        (fuel' : ℕ)
        → show nodes root found fuel' none indent show_first ≡ some lines
        → (i : ℕ) → IsChild nodes root found none i
        → IsReached i
    unfolding show
    IsReached-first zero e' i child = absurd (ground arith)
    IsReached-first (suc depth) e' i child =
        let (indent'', ls', shown', w') =
          show-Within depth none indent show_first lines e' i child in
        (depth, indent'', ls', shown', w')

    reached :
        (bound : ℕ)
        → ((i : ℕ) → i < length nodes → (at nodes root i).size < bound)
        → (left i : ℕ) → i < length nodes
        → bound ≤ (at nodes root i).size + left
        → IsReached i
    reached bound small zero i l h = absurd (omega (arith, small i l))
    reached bound small (suc left) i l h =
        let smallest = parents-Smallest opt_overlap nodes root found i ok l in
        elim (Option-cases (get_or found i none)) [
          | inl none_found ↦ IsReached-first fuel e i (l, none_found)
          | inr (k, of_k) ↦
              let of_i = subst (Smallest opt_overlap nodes root i (length nodes)) of_k smallest in
              IsReached-below i k (l, of_k)
                (reached bound small left k of_i.0
                  (omega (arith, parent-lt nodes root regions opt_overlap i k l of_i)))
        ]

    -- Every node is shown, with its aliases.
    pub show-own_lines-Within :
        (bound : ℕ)
        → ((i : ℕ) → i < length nodes → (at nodes root i).size < bound)
        → (i : ℕ) → i < length nodes
        → (indent' : ℕ) × Within (own_lines indent' (at nodes root i)) lines
    show-own_lines-Within bound small i l =
        let (depth, indent', ls, shown, w) = reached bound small bound i l (omega arith) in
        (indent', Within-trans (show-own_lines depth i indent' ls shown) w)

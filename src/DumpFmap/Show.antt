-- ===== src/DumpFmap/Show.antt =====
-- The tree that human_fmap shows: its children, its gaps, and its output as calls of line and empty.
use futility.Prelude.{
  ℕ, zero, suc, ◌+◌, ◌==◌, ltb, ◌&&◌, not, Bool, true, false, Option, none, some, List, [], ◌∷◌,
  ◌++◌,
}
use futility.Prelude.{if◌then◌else◌, get_or, length, map}
use futility.Prelude.Memory.{Bytes}
use futility.Fmap.Defs.{fmap_nareas}
use futility.DumpFmap.Nodes.{Node, area_nodes, root_node}
use futility.DumpFmap.Coalesce.{coalesce}
use futility.DumpFmap.Parent.{at, parent_node, parents}
use futility.DumpFmap.Sort.{sort_nodes}

-- A call of line for a node or for an alias of one, and a call of empty.
pub data Line : Type 0 where
  region : (indent : ℕ) (name : List ℕ) (start end size : ℕ) → Line
  duplicate : (indent : ℕ) (name : List ℕ) (start end size : ℕ) → Line
  gap : (indent start end : ℕ) (name : List ℕ) → Line

infixl 5 ◌>>=◌
abbrev pub ◌>>=◌ : {A B : Type 0} → Option A → (A → Option B) → Option B
none >>= f = none
some a >>= f = f a

abbrev pub same_parent : Option ℕ → Option ℕ → Bool
same_parent none none = true
same_parent none (some k) = false
same_parent (some k) none = false
same_parent (some k) (some j) = k == j

-- empty, if the ends differ.
abbrev pub gap_between : ℕ → List ℕ → ℕ → ℕ → List Line
gap_between indent name start end = if start == end then [] else (gap indent start end name ∷ [])

-- The line of a node and those of its aliases.
abbrev pub own_lines : ℕ → Node → List Line
own_lines indent p =
    region indent p.name p.start p.end p.size
    ∷ map (λ alias. duplicate indent alias p.start p.end p.size) p.alias

module _ (nodes : List Node) (root : Node) (found : List (Option ℕ)) where
  -- The calls of add_child for the parent `p`, from the node `i` on, `left` of them.
  unfoldable pub add_children : ℕ → ℕ → Option ℕ → List ℕ
  add_children zero i p = []
  add_children (suc left) i p =
      let rest = add_children left (i + 1) p in
      if same_parent (get_or found i none) p then i ∷ rest else rest

  -- `p->child`, sorted.
  unfoldable pub children : Option ℕ → List ℕ
  children p = sort_nodes (λ i. (at nodes root i).start) (add_children (length nodes) 0 p)

  -- The loop of show over the children, where `sub` is the call for a child.
  unfoldable pub show_each : (ℕ → Option (List Line)) → Node → ℕ → List ℕ → Option (List Line)
  show_each sub p indent [] = some []
  show_each sub p indent (c ∷ []) = do
    lines ← sub c
    some (lines ++ gap_between indent p.name p.start (at nodes root c).start)
  show_each sub p indent (c ∷ d ∷ cs) = do
    lines ← sub c
    rest ← show_each sub p indent (d ∷ cs)
    some
        (lines ++ (gap_between indent p.name (at nodes root d).end (at nodes root c).start ++ rest))

  -- The gap behind the last child of the region stands before the loop's first call.
  abbrev pub top_gap : Node → ℕ → List ℕ → List Line
  top_gap p indent [] = []
  top_gap p indent (c ∷ cs) = gap_between indent p.name (at nodes root c).end p.end

  -- show, with recursion at most `fuel` deep: `none` means that it is deeper.
  unfoldable pub show : ℕ → Option ℕ → ℕ → Bool → Option (List Line)
  show zero p indent show_first = none
  show (suc fuel) p indent show_first =
      let node = parent_node nodes root p in
      let cs = children p in
      let sub = λ (c : ℕ). show fuel (some c) (if show_first then indent + 1 else indent) true in
      do
        rest ← show_each sub node indent cs
        some
            ((if show_first then own_lines indent node else []) ++ (top_gap node indent cs ++ rest))

-- What a call of empty prints, and what it adds to gapcount.
abbrev pub print_gaps : Bool → List Line → List Line
print_gaps opt_gaps [] = []
print_gaps opt_gaps (gap indent start end name ∷ lines) =
    if opt_gaps
    then gap indent start end name ∷ print_gaps opt_gaps lines
    else print_gaps opt_gaps lines
print_gaps opt_gaps (l ∷ lines) = l ∷ print_gaps opt_gaps lines

abbrev pub gapcount : List Line → ℕ
gapcount [] = 0
gapcount (gap indent start end name ∷ lines) = gapcount lines + 1
gapcount (l ∷ lines) = gapcount lines

-- `return 1`; `return 0` with the lines, and whether the warning of unused regions follows.
pub data Outcome : Type 0 where
  error : Outcome
  success : List Line → Bool → Outcome

abbrev pub report : Bool → List Line → Outcome
report opt_gaps lines = success (print_gaps opt_gaps lines) (ltb 0 (gapcount lines) && not opt_gaps)

unfoldable pub human_fmap : ℕ → ℕ → Bool → Bytes → ℕ → Option Outcome
human_fmap fuel opt_overlap opt_gaps b fmap =
    let areas = area_nodes b fmap (fmap_nareas b fmap) 0 in
    let nodes = coalesce (length areas) areas in
    let root = root_node b fmap in
    elim (parents opt_overlap nodes root) [
      | none ↦ some error
      | some found ↦ do
        lines ← show nodes root found fuel none 0 opt_gaps
        some (report opt_gaps lines)
    ]

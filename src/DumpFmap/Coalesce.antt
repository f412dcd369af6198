-- ===== src/DumpFmap/Coalesce.antt =====
-- Coalescing duplicates: the two loops of human_fmap around add_dupe.
use futility.Prelude.{ℕ, zero, suc, List, [], ◌∷◌, ◌++◌, if◌then◌else◌, if_cases, ◌≡◌, refl}
use mathlib.Core.List.Perm
use mathlib.Core.Path.{subst}
use mathlib.Core.List.{Perm, perm_middle}
use futility.DumpFmap.Nodes.{Node, duplicates}

-- add_dupe, for what it does to the node that stays.
abbrev pub add_alias : Node → Node → Node
add_alias x y = record x { alias = y.name ∷ x.alias }

-- The loop over `j` for the node `x`, over the nodes behind it. Taking out the node at `j` moves the
-- next one to `j`, which the loop then steps over: it stays unread.
unfoldable pub absorb : Node → List Node → Node × List Node
absorb x [] = (x, [])
absorb x (y ∷ []) = if duplicates x y then (add_alias x y, []) else (x, y ∷ [])
absorb x (y ∷ z ∷ nodes) =
    let after = absorb (add_alias x y) nodes in
    let next = absorb x (z ∷ nodes) in
    if duplicates x y then (after.0, z ∷ after.1) else (next.0, y ∷ next.1)

-- The loop over `i`, with at most `left` rounds to go.
unfoldable pub coalesce : ℕ → List Node → List Node
coalesce zero nodes = nodes
coalesce (suc left) [] = []
coalesce (suc left) (x ∷ nodes) = let (x', rest) = absorb x nodes in x' ∷ coalesce left rest

-- The names of a node, and those of the nodes of a list.
abbrev pub names : Node → List (List ℕ)
names x = x.name ∷ x.alias

abbrev pub all_names : List Node → List (List ℕ)
all_names [] = []
all_names (x ∷ nodes) = names x ++ all_names nodes

abbrev pub own_names : List Node → List (List ℕ)
own_names [] = []
own_names (x ∷ nodes) = x.name ∷ own_names nodes

-- No node has an alias yet.
abbrev pub AreFresh : List Node → Type 0
AreFresh [] = Unit {0}
AreFresh (x ∷ nodes) = (x.alias ≡ []) × AreFresh nodes

-- What holds of the nodes that `absorb` leaves: every name is kept, and they are as they were.
abbrev Absorbed : Node → List Node → Node × List Node → Type 0
Absorbed x nodes (x', rest) = Perm (names x' ++ own_names rest) (names x ++ own_names nodes)

swap_names : (n m : List ℕ) (l r : List (List ℕ)) → Perm (n ∷ m ∷ (l ++ r)) (n ∷ (l ++ m ∷ r))
swap_names n m l r = Perm.cons n (Perm.symm (perm_middle l r))

insert_names :
    (l r l' r' : List (List ℕ)) (m : List ℕ)
    → Perm (l ++ r) (l' ++ r')
    → Perm (l ++ m ∷ r) (l' ++ m ∷ r')
insert_names l r l' r' m p =
    Perm.trans (perm_middle l r) (Perm.trans (Perm.cons m p) (Perm.symm (perm_middle l' r')))

absorb-Absorbed : (x : Node) (nodes : List Node) → Absorbed x nodes (absorb x nodes)
unfolding absorb
absorb-Absorbed x [] = Perm.refl _
absorb-Absorbed x (y ∷ []) =
    if_cases (Absorbed x (y ∷ [])) (duplicates x y) (λ _. swap_names x.name y.name x.alias [])
      (λ _. Perm.refl _)
absorb-Absorbed x (y ∷ z ∷ nodes) =
    if_cases (Absorbed x (y ∷ z ∷ nodes)) (duplicates x y)
      (λ _.
        Perm.trans
          (insert_names (names (absorb (add_alias x y) nodes).0)
            (own_names (absorb (add_alias x y) nodes).1) (names (add_alias x y)) (own_names nodes)
            z.name (absorb-Absorbed (add_alias x y) nodes))
          (swap_names x.name y.name x.alias (z.name ∷ own_names nodes)))
      (λ _.
        insert_names (names (absorb x (z ∷ nodes)).0) (own_names (absorb x (z ∷ nodes)).1) (names x)
          (own_names (z ∷ nodes)) y.name (absorb-Absorbed x (z ∷ nodes)))

absorb-AreFresh : (x : Node) (nodes : List Node) → AreFresh nodes → AreFresh (absorb x nodes).1
unfolding absorb
absorb-AreFresh x [] h = tt
absorb-AreFresh x (y ∷ []) h =
    if_cases (λ (r : Node × List Node). AreFresh r.1) (duplicates x y) (λ _. tt) (λ _. h)
absorb-AreFresh x (y ∷ z ∷ nodes) h =
    if_cases (λ (r : Node × List Node). AreFresh r.1) (duplicates x y)
      (λ _. (h.1.0, absorb-AreFresh (add_alias x y) nodes h.1.1))
      (λ _. (h.0, absorb-AreFresh x (z ∷ nodes) h.1))

own_names-all_names : (nodes : List Node) → AreFresh nodes → all_names nodes ≡ own_names nodes
own_names-all_names [] h = refl
own_names-all_names (x ∷ nodes) h = cc (h.0, own_names-all_names nodes h.1)

-- Coalescing loses no area and shows none twice: the names of the nodes that are left, with their
-- aliases, are the names of all the areas, in some order.
pub coalesce-Perm :
    (left : ℕ) (nodes : List Node)
    → AreFresh nodes
    → Perm (all_names (coalesce left nodes)) (own_names nodes)
unfolding coalesce
coalesce-Perm zero nodes h = rw (own_names-all_names nodes h) (Perm.refl _)
coalesce-Perm (suc left) [] h = Perm.refl _
coalesce-Perm (suc left) (x ∷ nodes) h =
    let r = absorb x nodes in
    let rest = coalesce-Perm left r.1 (absorb-AreFresh x nodes h.1) in
    Perm.trans (Perm.append_left (names r.0) rest) (
      subst
        (λ (l : List (List ℕ)). Perm (names r.0 ++ own_names r.1) ((x.name ∷ l) ++ own_names nodes))
        h.0 (absorb-Absorbed x nodes))

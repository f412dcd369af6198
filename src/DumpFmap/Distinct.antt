-- ===== src/DumpFmap/Distinct.antt =====
-- Which duplicates are left when human_fmap has coalesced them.
use futility.Prelude.{
  ℕ, zero, suc, ◌≤◌, arith, ◌+◌, List, [], ◌∷◌, if◌then◌else◌, if_cases, ◌≡◌, refl, ◌∙◌, length,
}
use futility.DumpFmap.Nodes.{Node, duplicates}
use futility.DumpFmap.Coalesce.{add_alias, absorb, coalesce}

-- How many of the nodes have the region of `x`.
unfoldable pub count_duplicates : Node → List Node → ℕ
count_duplicates x [] = 0
count_duplicates x (y ∷ nodes) = (if duplicates x y then 1 else 0) + count_duplicates x nodes

-- No region is that of more than `n` nodes behind one with it.
abbrev pub AtMost : ℕ → List Node → Type 0
AtMost n [] = Unit {0}
AtMost n (x ∷ nodes) = (count_duplicates x nodes ≤ n) × AtMost n nodes

absorb-count :
    (x w : Node) (nodes : List Node)
    → count_duplicates w (absorb x nodes).1 ≤ count_duplicates w nodes
unfolding absorb count_duplicates
absorb-count x w [] = omega arith
absorb-count x w (y ∷ []) =
    if_cases (λ (r : Node × List Node). count_duplicates w r.1 ≤ count_duplicates w (y ∷ []))
      (duplicates x y) (λ _. omega arith) (λ _. omega arith)
absorb-count x w (y ∷ z ∷ nodes) =
    if_cases (λ (r : Node × List Node). count_duplicates w r.1 ≤ count_duplicates w (y ∷ z ∷ nodes))
      (duplicates x y) (λ _. omega (arith, absorb-count (add_alias x y) w nodes))
      (λ _. omega (arith, absorb-count x w (z ∷ nodes)))

absorb-alone :
    (x : Node) (nodes : List Node)
    → count_duplicates x nodes ≤ 1
    → count_duplicates x (absorb x nodes).1 ≡ 0
unfolding absorb count_duplicates
absorb-alone x [] h = refl
absorb-alone x (y ∷ []) h =
    if_cases (λ (r : Node × List Node). count_duplicates x r.1 ≡ 0) (duplicates x y) (λ _. refl)
      (λ e. ground arith)
absorb-alone x (y ∷ z ∷ nodes) h =
    if_cases (λ (r : Node × List Node). count_duplicates x r.1 ≡ 0) (duplicates x y)
      (λ e. ground (arith, absorb-count (add_alias x y) x nodes))
      (λ e. ground (arith, absorb-alone x (z ∷ nodes)))

absorb-AtMost :
    (n : ℕ) (x : Node) (nodes : List Node) → AtMost n nodes → AtMost n (absorb x nodes).1
unfolding absorb count_duplicates
absorb-AtMost n x [] h = tt
absorb-AtMost n x (y ∷ []) h =
    if_cases (λ (r : Node × List Node). AtMost n r.1) (duplicates x y) (λ _. tt) (λ _. h)
absorb-AtMost n x (y ∷ z ∷ nodes) h =
    if_cases (λ (r : Node × List Node). AtMost n r.1) (duplicates x y)
      (λ _. (
        omega (arith, h.1.0, absorb-count (add_alias x y) z nodes),
        absorb-AtMost n (add_alias x y) nodes h.1.1,
      ))
      (λ _. (omega (arith, h.0, absorb-count x y (z ∷ nodes)), absorb-AtMost n x (z ∷ nodes) h.1))

length-absorb : (x : Node) (nodes : List Node) → length (absorb x nodes).1 ≤ length nodes
unfolding absorb
length-absorb x [] = omega arith
length-absorb x (y ∷ []) =
    if_cases (λ (r : Node × List Node). length r.1 ≤ length (y ∷ [])) (duplicates x y)
      (λ _. omega arith) (λ _. omega arith)
length-absorb x (y ∷ z ∷ nodes) =
    if_cases (λ (r : Node × List Node). length r.1 ≤ length (y ∷ z ∷ nodes)) (duplicates x y)
      (λ _. omega (arith, length-absorb (add_alias x y) nodes))
      (λ _. omega (arith, length-absorb x (z ∷ nodes)))

-- Absorbing duplicates leaves a node its region.
absorb-region : (x w : Node) (nodes : List Node) → duplicates (absorb x nodes).0 w ≡ duplicates x w
unfolding absorb duplicates
absorb-region x w [] = refl
absorb-region x w (y ∷ []) =
    if_cases (λ (r : Node × List Node). duplicates r.0 w ≡ duplicates x w) (duplicates x y)
      (λ _. refl) (λ _. refl)
absorb-region x w (y ∷ z ∷ nodes) =
    if_cases (λ (r : Node × List Node). duplicates r.0 w ≡ duplicates x w) (duplicates x y)
      (λ _. absorb-region (add_alias x y) w nodes) (λ _. absorb-region x w (z ∷ nodes))

same_count :
    (x x' : Node) (nodes : List Node)
    → ((w : Node) → duplicates x' w ≡ duplicates x w)
    → count_duplicates x' nodes ≡ count_duplicates x nodes
unfolding count_duplicates
same_count x x' [] h = refl
same_count x x' (y ∷ nodes) h = rw (h y, same_count x x' nodes h)

pub duplicates_symm : (x y : Node) → duplicates x y ≡ duplicates y x
unfolding duplicates
duplicates_symm x y = ground arith

coalesce-count :
    (w : Node) (left : ℕ) (nodes : List Node)
    → count_duplicates w (coalesce left nodes) ≤ count_duplicates w nodes
unfolding coalesce count_duplicates
coalesce-count w zero nodes = omega arith
coalesce-count w (suc left) [] = omega arith
coalesce-count w (suc left) (x ∷ nodes) =
    let same : duplicates w (absorb x nodes).0 ≡ duplicates w x =
      duplicates_symm w (absorb x nodes).0 ∙ absorb-region x w nodes ∙ duplicates_symm x w in
    rw same (omega (arith, coalesce-count w left (absorb x nodes).1, absorb-count x w nodes))

-- If no three areas have the same region, no two of the nodes that are left have it.
pub coalesce-AtMost :
    (left : ℕ) (nodes : List Node)
    → length nodes ≤ left
    → AtMost 1 nodes
    → AtMost 0 (coalesce left nodes)
unfolding coalesce
coalesce-AtMost zero [] l h = tt
coalesce-AtMost zero (x ∷ nodes) l h = absurd (omega arith)
coalesce-AtMost (suc left) [] l h = tt
coalesce-AtMost (suc left) (x ∷ nodes) l h =
    let r = absorb x nodes in
    (
      omega (
        arith,
        absorb-alone x nodes h.0,
        same_count x r.0 (coalesce left r.1) (λ w. absorb-region x w nodes),
        coalesce-count x left r.1,
      ),
      coalesce-AtMost left r.1 (omega (arith, length-absorb x nodes)) (absorb-AtMost 1 x nodes h.1),
    )

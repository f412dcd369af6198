-- ===== src/LoadFmap/Frame.antt =====
-- Nothing but the areas named changes.
use futility.Prelude.{
  ℕ, zero, suc, ◌+◌, ◌≤◌, ◌<◌, ◌≡◌, refl, arith, Bool, Option, some, List, [], ◌∷◌, length, All,
  if_cases, ◌∙◌, sym, ◌⊎◌, inl, inr, option_cases, option_some, ap, compare_with,
}
use futility.Prelude.Memory.{Bytes, le32, put_text_ne, strncmp_eq}
use futility.Fmap.Defs.{fmap_find, fmap_find_by_name, find_area, area_at, fmap_nareas, fmap_namelen}
use futility.Fmap.Areas.{AreaFound, no_area, area, fmap_find_by_name-AreaFound}
use futility.LoadFmap.Defs.{Files, split_arg, copy_to_area, load_area, load_areas, do_load_fmap}

-- A read gives no more bytes than are asked for.
abbrev pub Fit : Files → Type 0
Fit files =
    (file : List ℕ) (n : ℕ) (text : List ℕ) (closed : Bool)
    → files file n ≡ some (text, closed)
    → length text ≤ n

-- The flash map, header and areas, takes the bytes from `fmap` on, before this offset.
abbrev pub map_end : Bytes → ℕ → ℕ
map_end b fmap = area_at fmap (fmap_nareas b fmap)

abbrev SameMap : Bytes → ℕ → Bytes → Type 0
SameMap b fmap b' = (i : ℕ) → fmap ≤ i → i < map_end b fmap → b' i ≡ b i

strncmp_eq-SameMap :
    (n : ℕ) (b b' : Bytes) (o : ℕ) (name : List ℕ)
    → ((i : ℕ) → o ≤ i → i < o + n → b' i ≡ b i)
    → strncmp_eq n b' o name ≡ strncmp_eq n b o name
unfolding strncmp_eq
strncmp_eq-SameMap zero b b' o name h = refl
strncmp_eq-SameMap (suc n) b b' o [] h = rw (h o (omega arith) (omega arith)) refl
strncmp_eq-SameMap (suc n) b b' o (c ∷ name) h =
    rw
      (
        h o (omega arith) (omega arith),
        strncmp_eq-SameMap n b b' (o + 1) name (λ i l u. h i (omega arith) (omega arith)),
      )
      refl

find_area-SameMap :
    (b b' : Bytes) (fmap : ℕ) (name : List ℕ) (left i : ℕ)
    → SameMap b fmap b'
    → i + left ≡ fmap_nareas b fmap
    → find_area b' fmap name left i ≡ find_area b fmap name left i
unfolding find_area
find_area-SameMap b b' fmap name zero i s e = refl
find_area-SameMap b b' fmap name (suc left) i s e =
    rw
      (
        strncmp_eq-SameMap fmap_namelen b b' (area_at fmap i + 8) name
            (λ j l u. s j (omega arith) (grind arith)),
        find_area-SameMap b b' fmap name left (i + 1) s (omega arith),
      )
      refl

find_by_name-SameMap :
    (b b' : Bytes) (len fmap : ℕ) (name : List ℕ)
    → SameMap b fmap b'
    → fmap_find_by_name b' len (some fmap) name ≡ fmap_find_by_name b len (some fmap) name
unfolding fmap_find_by_name
find_by_name-SameMap b b' len fmap name s =
    let count : fmap_nareas b' fmap ≡ fmap_nareas b fmap =
      rw (s (fmap + 54) (omega arith) (omega arith), s (fmap + 54 + 1) (omega arith) (omega arith))
        refl in
    rw count (find_area-SameMap b b' fmap name (fmap_nareas b fmap) 0 s (omega arith))

-- The area found is one of the map's.
AreaFound-area :
    {b : Bytes} {fmap : ℕ} {name : List ℕ} {i n : ℕ} {r : Option ℕ} (ah : ℕ)
    → AreaFound b fmap name i n r
    → r ≡ some ah
    → (k : ℕ) × (ah ≡ area_at fmap k) × (k < n)
AreaFound-area ah (no_area h) e = absurd (ground arith)
AreaFound-area ah (area k at_k less named before) e = (k, ground arith, less)

le32-same :
    {fmap : ℕ} (b b' : Bytes) (o : ℕ)
    → SameMap b fmap b'
    → fmap ≤ o
    → o + 4 ≤ map_end b fmap
    → le32 b' o ≡ le32 b o
le32-same b b' o s low high =
    rw
      (
        s o (omega arith) (omega arith),
        s (o + 1) (omega arith) (omega arith),
        s (o + 2) (omega arith) (omega arith),
        s (o + 3) (omega arith) (omega arith),
      )
      refl

outside : (lo n i : ℕ) → ¬ ((lo ≤ i) × (i < lo + n)) → (i < lo) ⊎ (lo + n ≤ i)
outside lo n i h = elim (compare_with i lo) [
  | inl lt ↦ inl lt
  | inr ge ↦ elim (compare_with i (lo + n)) [
    | inl lt ↦ absurd (h (ground arith, lt))
    | inr ge' ↦ inr (ground arith)
  ]
]

module _ (files : Files) (len fmap : ℕ) where
  -- The byte `i` lies in the area that an argument names.
  pub record Touches (b : Bytes) (arg : List ℕ) (i : ℕ) : Type 0 where
    pub name : List ℕ
    pub file : List ℕ
    pub ah : ℕ
    pub split : split_arg arg ≡ some (name, file)
    pub found : fmap_find_by_name b len (some fmap) name ≡ some ah
    pub above : le32 b ah ≤ i
    pub below : i < le32 b ah + le32 b (ah + 4)

  le32-SameMap :
      (b b' : Bytes) (name : List ℕ) (ah : ℕ)
      → SameMap b fmap b'
      → fmap_find_by_name b len (some fmap) name ≡ some ah
      → (le32 b' ah ≡ le32 b ah) × (le32 b' (ah + 4) ≡ le32 b (ah + 4))
  le32-SameMap b b' name ah s found =
      let (k, e, less) = AreaFound-area ah (fmap_find_by_name-AreaFound b len fmap name) found in
      let low : fmap ≤ ah = omega (arith, e) in
      let high : ah + 42 ≤ map_end b fmap = grind (arith, e, less) in
      (
        le32-same b b' ah s low (omega (arith, high)),
        le32-same b b' (ah + 4) s (omega (arith, low)) (omega (arith, high)),
      )

  Touches-SameMap :
      (b b' : Bytes) (arg : List ℕ) (i : ℕ) → SameMap b fmap b' → Touches b' arg i → Touches b arg i
  Touches-SameMap b b' arg i s t =
      let found : fmap_find_by_name b len (some fmap) t.name ≡ some t.ah =
        sym (find_by_name-SameMap b b' len fmap t.name s) ∙ t.found in
      let same = le32-SameMap b b' t.name t.ah s found in
      record {
        name = t.name;
        file = t.file;
        ah = t.ah;
        split = t.split;
        found = found;
        above = omega (arith, t.above, same);
        below = omega (arith, t.below, same);
      }

  -- One round changes the bytes of its area only.
  load_area-untouched :
      (b : Bytes) (arg : List ℕ) (i : ℕ)
      → Fit files
      → ¬ Touches b arg i
      → (load_area files b len fmap arg).0 i ≡ b i
  unfolding load_area copy_to_area
  load_area-untouched b arg i fit h =
      option_cases (λ (r : Bytes × Bool). r.0 i ≡ b i) (split_arg arg) (λ e. refl)
        (λ (name, file) split.
          option_cases (λ (r : Bytes × Bool). r.0 i ≡ b i)
            (fmap_find_by_name b len (some fmap) name) (λ e. refl)
            (λ ah found.
              option_cases (λ (r : Bytes × Bool). r.0 i ≡ b i) (files file (le32 b (ah + 4)))
                (λ e. refl)
                (λ (text, closed) read.
                  let short : length text ≤ le32 b (ah + 4) =
                    fit file (le32 b (ah + 4)) text closed read in
                  let off_area = outside (le32 b ah) (le32 b (ah + 4)) i (λ (above, below).
                    h (record {
                      name = name;
                      file = file;
                      ah = ah;
                      split = split;
                      found = found;
                      above = above;
                      below = below;
                    })) in
                  put_text_ne b (le32 b ah) text i (ground (arith, off_area)))))

  -- Several rounds, where no argument names an area with bytes of the flash map.
  load_areas-untouched :
      (b b' : Bytes) (argv : List (List ℕ)) (i : ℕ)
      → Fit files
      → SameMap b fmap b'
      → All (λ (arg : List ℕ). (j : ℕ) → fmap ≤ j → j < map_end b fmap → ¬ Touches b arg j) argv
      → All (λ (arg : List ℕ). ¬ Touches b arg i) argv
      → (load_areas files b' len fmap argv).0 i ≡ b' i
  unfolding load_areas
  load_areas-untouched b b' [] i fit s safe h = refl
  load_areas-untouched b b' (arg ∷ argv) i fit s safe h =
      let b'' = (load_area files b' len fmap arg).0 in
      let one : (j : ℕ) → ¬ Touches b arg j → b'' j ≡ b' j =
        λ j n. load_area-untouched b' arg j fit (λ t. n (Touches-SameMap b b' arg j s t)) in
      let s' : SameMap b fmap b'' = λ j l u. one j (safe.0 j l u) ∙ s j l u in
      if_cases (λ (r : Bytes × Bool). r.0 i ≡ b' i) (load_area files b' len fmap arg).1
        (λ e. load_areas-untouched b b'' argv i fit s' safe.1 h.1 ∙ one i h.0) (λ e. one i h.0)

-- load_fmap changes no byte outside the areas that its arguments name, if none of these has a byte of
-- the flash map itself and a read gives no more bytes than are asked for.
pub do_load_fmap-untouched :
    (files : Files) (b : Bytes) (len fmap : ℕ) (argv : List (List ℕ)) (i : ℕ)
    → Fit files
    → fmap_find b len ≡ some fmap
    → All
        (λ (arg : List ℕ).
          (j : ℕ) → fmap ≤ j → j < map_end b fmap → ¬ Touches files len fmap b arg j)
        argv
    → All (λ (arg : List ℕ). ¬ Touches files len fmap b arg i) argv
    → (do_load_fmap files b len argv).0 i ≡ b i
unfolding do_load_fmap
do_load_fmap-untouched files b len fmap argv i fit e safe h =
    ap (λ (r : Bytes × Bool). r.0 i) (option_some _ _ e)
    ∙ load_areas-untouched files len fmap b b argv i fit (λ j l u. refl) safe h

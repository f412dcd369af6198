-- ===== src/LoadFmap/Complement.antt =====
-- load_fmap as the complement of dump_fmap -x.
use futility.Prelude.{
  ℕ, zero, suc, ◌+◌, ◌≤◌, ◌<◌, ◌&&◌, Bool, true, false, Option, none, some, List, [], ◌∷◌, ◌++◌,
  length, take, if◌then◌else◌, All, ◌≡◌, ◌≢◌, refl, arith, ap, ◌∙◌, option_some, option_none,
  Bool-cases, option_cases, compare_with, inl, inr,
}
use mathlib.Core.List.{append-nil}
use futility.Prelude.Memory.{Bytes, le32, bytes_at, strncmp_eq}
use futility.Prelude.Text.{cut_at_colon, same_text}
use futility.Fmap.Defs.{area_at, fmap_nareas, fmap_namelen, fmap_find, fmap_find_by_name}
use futility.Fmap.Areas.{is_named, AreaFound, fmap_find_by_name-AreaFound, no_area, area}
use futility.Prelude.Memory.{text_at}
use futility.DumpFmap.Extract.{
  Disk, File, prepare_arg, prepare_args, find_arg, save, area_name, save_named, save_areas,
  dump_fmap,
}
use futility.DumpFmap.Extracted.{save-HoldsArea}
use futility.LoadFmap.Defs.{Files, split_arg, do_load_fmap}
use futility.LoadFmap.Restore.{do_load_fmap-Holds}

-- For a name without zero bytes, strcmp with the field cut at its first zero byte is strncmp.
same_text-strncmp_eq :
    (n : ℕ) (b : Bytes) (o : ℕ) (name : List ℕ)
    → length name ≤ n
    → All (λ (c : ℕ). c ≢ 0) name
    → same_text name (text_at n b o) ≡ strncmp_eq n b o name
unfolding same_text strncmp_eq text_at
same_text-strncmp_eq zero b o [] l h = refl
same_text-strncmp_eq zero b o (c ∷ name) l h = absurd (omega arith)
same_text-strncmp_eq (suc n) b o [] l h = ground arith
same_text-strncmp_eq (suc n) b o (c ∷ name) l h =
    ground (arith, h.0, same_text-strncmp_eq n b (o + 1) name (omega arith) h.1)

prepare_arg-split_arg :
    (arg name file : List ℕ)
    → split_arg arg ≡ some (name, file)
    → prepare_arg arg ≡ some (name, some file)
unfolding split_arg prepare_arg
prepare_arg-split_arg arg name file e =
    option_cases
      (λ (r : Option (List ℕ × List ℕ)).
        r ≡ some (name, file) → prepare_arg arg ≡ some (name, some file))
      (cut_at_colon arg) (λ none_found h. cc)
      (λ parts cut h. option_some _ _ cut ∙ option_some _ _ h) e

-- The files that hold what was written to them.
abbrev pub stored : List File → Files
stored [] name n = none
stored ((f, text) ∷ files) name n =
    let rest = stored files name n in if same_text f name then some (take n text, true) else rest

same_text_self : (s : List ℕ) → same_text s s ≡ true
unfolding same_text
same_text_self [] = refl
same_text_self (c ∷ s) = ground (arith, same_text_self s)

take-bytes_at : (n : ℕ) (b : Bytes) (o : ℕ) → take n (bytes_at n b o) ≡ bytes_at n b o
take-bytes_at zero b o = refl
take-bytes_at (suc n) b o = ap (λ (l : List ℕ). b o ∷ l) (take-bytes_at n b (o + 1))

module _ (disk : Disk) (b : Bytes) (size_of_rom fmap : ℕ) (name file : List ℕ) (k : ℕ)
    (short : length name ≤ fmap_namelen) (no_zero : All (λ (c : ℕ). c ≢ 0) name)
    (first : is_named b fmap name k ≡ true)
    (only : (j : ℕ) → j < fmap_nareas b fmap → is_named b fmap name j ≡ true → j ≡ k) where
  abbrev args : List (List ℕ × Option (List ℕ))
  args = (name, some file) ∷ []

  find_arg-is_named :
      (i : ℕ) (named : Bool)
      → is_named b fmap name i ≡ named
      → find_arg args (area_name disk b size_of_rom fmap (area_at fmap i))
        ≡ (if named then some (some file) else none)
  unfolding find_arg
  find_arg-is_named i named e =
      rw (same_text-strncmp_eq fmap_namelen b (area_at fmap i + 8) name short no_zero ∙ e) refl

  not_named : (i : ℕ) → i < fmap_nareas b fmap → i ≢ k → is_named b fmap name i ≡ false
  not_named i l ne = elim (Bool-cases (is_named b fmap name i)) [
    | inl named ↦ absurd (ne (only i l named))
    | inr other ↦ other
  ]

  save_named-after :
      (left i : ℕ)
      → i + left ≡ fmap_nareas b fmap
      → k < i
      → save_named disk b size_of_rom fmap args left i ≡ ([], true)
  unfolding save_named
  save_named-after zero i e l = refl
  save_named-after (suc left) i e l =
      let other = find_arg-is_named i false (not_named i (omega arith) (λ e'. omega arith)) in
      option_none _ _ other ∙ save_named-after left (i + 1) (omega arith) (omega arith)

  -- The loop of dump_fmap is that of the one area.
  save_named-one :
      (left i : ℕ)
      → i + left ≡ fmap_nareas b fmap
      → i ≤ k
      → k < fmap_nareas b fmap
      → save_named disk b size_of_rom fmap args left i ≡ (
        (save disk b size_of_rom fmap (area_at fmap k) file).0 ++ [],
        (save disk b size_of_rom fmap (area_at fmap k) file).1 && true,
      )
  unfolding save_named
  save_named-one zero i e l u = absurd (omega arith)
  save_named-one (suc left) i e l u = elim (compare_with i k) [
    | inl lt ↦
        let other = find_arg-is_named i false (not_named i (omega arith) (λ e'. omega arith)) in
        option_none _ _ other ∙ save_named-one left (i + 1) (omega arith) (omega arith) u
    | inr (inl at_k) ↦
        let here = find_arg-is_named i true (rw at_k first) in
        option_some _ _ here
        ∙ rw (save_named-after left (i + 1) (omega arith) (omega arith), at_k) refl
    | inr (inr gt) ↦ absurd (omega arith)
  ]

  save_named-HoldsArea :
      k < fmap_nareas b fmap
      → (save_named disk b size_of_rom fmap args (fmap_nareas b fmap) 0).1 ≡ true
      → (save_named disk b size_of_rom fmap args (fmap_nareas b fmap) 0).0
        ≡ (file, bytes_at (le32 b (area_at fmap k + 4)) b (le32 b (area_at fmap k))) ∷ []
  save_named-HoldsArea u h =
      let one = save_named-one (fmap_nareas b fmap) 0 (omega arith) (omega arith) u in
      let saved : (save disk b size_of_rom fmap (area_at fmap k) file).1 ≡ true = ground arith in
      let (text, e, held) = save-HoldsArea disk b size_of_rom fmap (area_at fmap k) file saved in
      ap (λ (r : List File × Bool). r.0) one
      ∙ append-nil _
      ∙ e
      ∙ ap (λ (t : List ℕ). (file, t) ∷ []) held.0

  prepare_args-one :
      (arg : List ℕ) → split_arg arg ≡ some (name, file) → prepare_args (arg ∷ []) ≡ some args
  unfolding prepare_args
  prepare_args-one arg split = option_some _ _ (prepare_arg-split_arg arg name file split)

  dump_fmap-one :
      (arg : List ℕ)
      → split_arg arg ≡ some (name, file)
      → dump_fmap disk b size_of_rom fmap (arg ∷ [])
        ≡ save_named disk b size_of_rom fmap args (fmap_nareas b fmap) 0
  unfolding dump_fmap save_areas
  dump_fmap-one arg split = option_some _ _ (prepare_args-one arg split)

  find_by_name-one :
      (k < fmap_nareas b fmap)
      → fmap_find_by_name b size_of_rom (some fmap) name ≡ some (area_at fmap k)
  find_by_name-one u =
      found (fmap_find_by_name b size_of_rom (some fmap) name)
        (fmap_find_by_name-AreaFound b size_of_rom fmap name)
    where
      found :
          (r : Option ℕ)
          → AreaFound b fmap name 0 (fmap_nareas b fmap) r
          → r ≡ some (area_at fmap k)
      found none (no_area none_named) = absurd (ground (arith, none_named k (omega arith) u, first))
      found (some ah) (area j at_j less named before) =
          let same : j ≡ k = only j less named in rw (at_j, same) refl

  -- Where dump_fmap succeeds in extracting an area that is not empty, the only one with its name, then
  -- load_fmap with the same argument reads the file back, succeeds, and changes nothing.
  pub do_load_fmap-dump_fmap :
      (arg : List ℕ)
      → fmap_find b size_of_rom ≡ some fmap
      → split_arg arg ≡ some (name, file)
      → k < fmap_nareas b fmap
      → le32 b (area_at fmap k + 4) ≢ 0
      → (dump_fmap disk b size_of_rom fmap (arg ∷ [])).1 ≡ true
      → do_load_fmap
          (stored (dump_fmap disk b size_of_rom fmap (arg ∷ [])).0)
          b
          size_of_rom
          (arg ∷ [])
        ≡ (b, true)
  do_load_fmap-dump_fmap arg located split u some_bytes saved =
      let size = le32 b (area_at fmap k + 4) in
      let text = bytes_at size b (le32 b (area_at fmap k)) in
      let same = dump_fmap-one arg split in
      let written : (dump_fmap disk b size_of_rom fmap (arg ∷ [])).0 ≡ (file, text) ∷ [] =
        ap (λ (r : List File × Bool). r.0) same ∙ save_named-HoldsArea u (rw (← same) saved) in
      let read : stored ((file, text) ∷ []) file size ≡ some (text, true) =
        rw (same_text_self file, take-bytes_at size b (le32 b (area_at fmap k))) refl in
      rw written (
        do_load_fmap-Holds (stored ((file, text) ∷ [])) b size_of_rom fmap (arg ∷ []) located (
          record {
            name = name;
            file = file;
            ah = area_at fmap k;
            split = split;
            found = find_by_name-one u;
            some_bytes = some_bytes;
            bytes = read;
          },
          tt,
        ))

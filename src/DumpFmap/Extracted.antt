-- ===== src/DumpFmap/Extracted.antt =====
-- What dump_fmap writes.
use futility.Prelude.{
  ℕ, zero, suc, ◌+◌, ◌≤◌, ◌<◌, ◌==◌, ltb, not, Bool, true, false, Option, List, [], ◌∷◌, ◌++◌,
  if_cases, u32, All, ◌≡◌, refl, arith, ◌⊎◌, inl, inr, option_cases,
}
use mathlib.Core.Path.{subst, sym}
use futility.Prelude.Memory.{Bytes, le32, bytes_at}
use futility.Fmap.Defs.{area_at, fmap_nareas}
use futility.DumpFmap.Extract.{
  Disk, File, prepare_args, find_arg, save, area_name, save_all, save_named, save_areas, dump_fmap,
}

no_bytes : (b : Bytes) (o n : ℕ) → n ≡ 0 → [] ≡ bytes_at n b o
no_bytes b o zero e = refl
no_bytes b o (suc n) e = absurd (omega arith)

module _ (disk : Disk) (b : Bytes) (size_of_rom fmap : ℕ) where
  -- The file holds the bytes of the area at `ah`, which ends in the image, if it is not empty.
  abbrev pub HoldsArea : ℕ → File → Type 0
  HoldsArea ah (file, text) =
      (text ≡ bytes_at (le32 b (ah + 4)) b (le32 b ah))
      × ((le32 b (ah + 4) ≡ 0) ⊎ (u32 (le32 b ah + le32 b (ah + 4)) ≤ size_of_rom))

  pub save-HoldsArea :
      (ah : ℕ) (outname : List ℕ)
      → (save disk b size_of_rom fmap ah outname).1 ≡ true
      → ((text : List ℕ) × ((save disk b size_of_rom fmap ah outname).0 ≡ (outname, text) ∷ [])
          × HoldsArea ah (outname, text))
  unfolding save
  save-HoldsArea ah outname =
      if_cases Result (not (disk.opens outname)) (λ e h. cc)
        (λ e.
          if_cases Result (le32 b (ah + 4) == 0)
            (λ empty h. (
              [],
              refl,
              (no_bytes b (le32 b ah) (le32 b (ah + 4)) (ground arith), inl (ground arith)),
            ))
            (λ full.
              if_cases Result (ltb size_of_rom (u32 (le32 b ah + le32 b (ah + 4)))) (λ e h. cc)
                (λ fits.
                  if_cases Result (disk.writes outname (bytes_at (le32 b (ah + 4)) b (le32 b ah)))
                    (λ e h.
                      (bytes_at (le32 b (ah + 4)) b (le32 b ah), refl, (refl, inr (ground arith))))
                    (λ e h. cc))))
    where
      Result : List File × Bool → Type 0
      Result r =
          r.1 ≡ true → (text : List ℕ) × (r.0 ≡ (outname, text) ∷ []) × HoldsArea ah (outname, text)

  -- Every file holds the bytes of one of the areas.
  abbrev pub FromAreas : List File → Type 0
  FromAreas files =
      All (λ (f : File). (k : ℕ) × (k < fmap_nareas b fmap) × HoldsArea (area_at fmap k) f) files

  save-FromAreas :
      (k : ℕ) (outname : List ℕ) (rest : List File)
      → k < fmap_nareas b fmap
      → (save disk b size_of_rom fmap (area_at fmap k) outname).1 ≡ true
      → FromAreas rest
      → FromAreas ((save disk b size_of_rom fmap (area_at fmap k) outname).0 ++ rest)
  save-FromAreas k outname rest l e h =
      let (text, one, held) = save-HoldsArea (area_at fmap k) outname e in
      subst (λ (fs : List File). FromAreas (fs ++ rest)) (sym one) ((k, l, held), h)

  save_all-FromAreas :
      (left i : ℕ) (named : Bool)
      → i + left ≡ fmap_nareas b fmap
      → (save_all disk b size_of_rom fmap left i named).1 ≡ true
      → FromAreas (save_all disk b size_of_rom fmap left i named).0
  unfolding save_all
  save_all-FromAreas zero i named e h = tt
  save_all-FromAreas (suc left) i named e h =
      save-FromAreas i _ _ (omega arith) (ground arith)
        (save_all-FromAreas left (i + 1) true (omega arith) (ground arith))

  save_named-FromAreas :
      (args : List (List ℕ × Option (List ℕ))) (left i : ℕ)
      → i + left ≡ fmap_nareas b fmap
      → (save_named disk b size_of_rom fmap args left i).1 ≡ true
      → FromAreas (save_named disk b size_of_rom fmap args left i).0
  unfolding save_named
  save_named-FromAreas args zero i e = λ h. tt
  save_named-FromAreas args (suc left) i e =
      let rest = save_named-FromAreas args left (i + 1) (omega arith) in
      option_cases (λ (r : List File × Bool). r.1 ≡ true → FromAreas r.0)
        (find_arg args (area_name disk b size_of_rom fmap (area_at fmap i))) (λ other. rest)
        (λ outname found h. save-FromAreas i _ _ (omega arith) (ground arith) (rest (ground arith)))

  save_areas-FromAreas :
      (args : List (List ℕ × Option (List ℕ)))
      → (save_areas disk b size_of_rom fmap args).1 ≡ true
      → FromAreas (save_areas disk b size_of_rom fmap args).0
  unfolding save_areas
  save_areas-FromAreas [] = save_all-FromAreas (fmap_nareas b fmap) 0 false (omega arith)
  save_areas-FromAreas (arg ∷ args) =
      save_named-FromAreas (arg ∷ args) (fmap_nareas b fmap) 0 (omega arith)

  -- Where dump_fmap succeeds in extracting, every file that it writes holds the bytes of an area, and
  -- that area ends in the image or is empty, its end computed as a uint32_t.
  pub dump_fmap-FromAreas :
      (argv : List (List ℕ))
      → (dump_fmap disk b size_of_rom fmap argv).1 ≡ true
      → FromAreas (dump_fmap disk b size_of_rom fmap argv).0
  unfolding dump_fmap
  dump_fmap-FromAreas argv =
      option_cases (λ (r : List File × Bool). r.1 ≡ true → FromAreas r.0) (prepare_args argv)
        (λ bogus h. cc) (λ args prepared. save_areas-FromAreas args)

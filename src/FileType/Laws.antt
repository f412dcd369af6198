-- ===== src/FileType/Laws.antt =====
-- What recognize_bios_image recognizes, by the flash map.
use futility.Prelude.{ℕ, ◌≡◌}
use futility.Prelude.{some, List, [], ◌∷◌}
use futility.Prelude.Memory.{Bytes}
use futility.Fmap.Defs.{fmap_find, fmap_find_by_name}
use futility.FileType.{FileType, unknown, bios_image, old_bios_image}
use futility.FileType.{bios_area_names, old_bios_area_names}

-- Each of the names is that of an area of the map.
abbrev pub AllFound : Bytes → ℕ → ℕ → List (List ℕ) → Type 0
AllFound b len fmap [] = Unit {0}
AllFound b len fmap (name ∷ names) =
    ((ah : ℕ) × (fmap_find_by_name b len (some fmap) name ≡ some ah)) × AllFound b len fmap names

-- There is a flash map, with the areas.
abbrev pub HasAreas : Bytes → ℕ → List (List ℕ) → Type 0
HasAreas b len names = (fmap : ℕ) × (fmap_find b len ≡ some fmap) × AllFound b len fmap names

-- The three outcomes.
pub data BiosOutcome (b : Bytes) (len : ℕ) : FileType → Type 0 where
  is_bios : HasAreas b len bios_area_names → BiosOutcome b len bios_image
  is_old_bios :
      ¬ HasAreas b len bios_area_names
      → HasAreas b len old_bios_area_names
      → BiosOutcome b len old_bios_image
  is_neither :
      ¬ HasAreas b len bios_area_names
      → ¬ HasAreas b len old_bios_area_names
      → BiosOutcome b len unknown

-- ===== src/FileType/Tests.antt =====
-- An image with the five areas of a BIOS image.
use futility.Prelude.{ℕ, ◌≡◌, refl, List, [], ◌∷◌}
use futility.Prelude.Memory.{Bytes, put_text, put_all, put32, memcmp_eq, strncmp_eq}
use futility.Prelude.Text.{codes}
use futility.Fmap.Search.{grow, scan, descend}
use futility.Fmap.Defs.{is_fmap, fmap_signature, fmap_find, fmap_find_by_name, find_area}
use futility.FileType.{bios_image, recognize_bios_image, has_all_areas}

abbrev put_names : Bytes → List (ℕ × List ℕ) → Bytes
put_names b [] = b
put_names b ((o, name) ∷ names) = put_names (put_text b o name) names

-- The map is at 64, with areas from 120 on.
abbrev names : List (ℕ × List ℕ)
names =
    (64, fmap_signature)
    ∷ (128, codes "GBB")
    ∷ (170, codes "FW_MAIN_A")
    ∷ (212, codes "FW_MAIN_B")
    ∷ (254, codes "VBLOCK_A")
    ∷ (296, codes "VBLOCK_B")
    ∷ []

abbrev image : Bytes
image = put_names (put_all (λ i. 0) ((72, 1) ∷ (118, 5) ∷ [])) names

bios_test : recognize_bios_image image 400 ≡ bios_image
unfolding recognize_bios_image has_all_areas fmap_find is_fmap memcmp_eq grow scan descend
    fmap_find_by_name find_area strncmp_eq put32
bios_test = refl

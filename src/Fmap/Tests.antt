-- ===== src/Fmap/Tests.antt =====
-- Searches in small buffers.
use futility.Prelude.{◌≡◌, refl, arith, ltb, if◌then◌else◌, some}
use futility.Prelude.Memory.{Bytes, Agree, put_text, put16, memcmp_eq, strncmp_eq}
use futility.Prelude.Text.{codes}
use futility.Fmap.Search.{grow, scan, descend}
use futility.Fmap.Defs.{fmap_signature, is_fmap, fmap_find, fmap_find_by_name, find_area}
use futility.Fmap.Find.{Located, fmap_find-Located}
use futility.Fmap.Areas.{AreaFound, fmap_find_by_name-AreaFound, fmap_find-Agree}

-- A header at 64, one at 36, which is aligned worse, and two areas.
abbrev image : Bytes
image =
    put_text
      (put_text
        (put16
          (put_text (put_text (put_text (λ _. 0) 36 fmap_signature) 44 (codes "\u{1}")) 64
            fmap_signature)
          72 1)
        128 (codes "RO"))
      170 (codes "GBB")

abbrev flash : Bytes
flash = put16 image 118 2

find_test : fmap_find flash 256 ≡ some 64
unfolding fmap_find is_fmap memcmp_eq grow scan descend
find_test = refl

by_name_test : fmap_find_by_name flash 256 (some 64) (codes "GBB") ≡ some 162
unfolding fmap_find_by_name find_area strncmp_eq
by_name_test = refl

fmap_find-Located_example : Located flash 256 (fmap_find flash 256)
fmap_find-Located_example = fmap_find-Located flash 256

fmap_find_by_name-AreaFound_example :
    AreaFound flash 64 (codes "GBB") 0 2 (fmap_find_by_name flash 256 (some 64) (codes "GBB"))
fmap_find_by_name-AreaFound_example = fmap_find_by_name-AreaFound flash 256 64 (codes "GBB")

-- The same file, followed by other bytes.
abbrev longer : Bytes
longer = λ i. if ltb i 256 then flash i else 0xFF

flash-longer : Agree 256 flash longer
flash-longer i lt = ground arith

fmap_find-Agree_test : fmap_find flash 256 ≡ fmap_find longer 256
fmap_find-Agree_test = fmap_find-Agree flash longer 256 flash-longer

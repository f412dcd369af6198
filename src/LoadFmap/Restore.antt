-- ===== src/LoadFmap/Restore.antt =====
-- Areas loaded with what they hold.
use futility.Prelude.{
  ℕ, zero, suc, ◌+◌, ◌≡◌, ◌≢◌, refl, arith, true, some, List, [], ◌∷◌, length, All, ◌∙◌, ◌==◌, not,
  option_some,
}
use mathlib.Core.Path.{fun_ext}
use futility.Prelude.Memory.{Bytes, le32, put_text, bytes_at, put_text-bytes_at}
use futility.Fmap.Defs.{fmap_find, fmap_find_by_name}
use futility.LoadFmap.Defs.{Files, split_arg, copy_to_area, load_area, load_areas, do_load_fmap}

-- The argument names an area of the image that is not empty, and a file with the bytes of that area.
pub record Holds (files : Files) (b : Bytes) (len fmap : ℕ) (arg : List ℕ) : Type 0 where
  pub name : List ℕ
  pub file : List ℕ
  pub ah : ℕ
  pub split : split_arg arg ≡ some (name, file)
  pub found : fmap_find_by_name b len (some fmap) name ≡ some ah
  pub some_bytes : le32 b (ah + 4) ≢ 0
  pub bytes : files file (le32 b (ah + 4)) ≡ some (bytes_at (le32 b (ah + 4)) b (le32 b ah), true)

length-bytes_at : (n : ℕ) (b : Bytes) (o : ℕ) → length (bytes_at n b o) ≡ n
length-bytes_at zero b o = refl
length-bytes_at (suc n) b o = omega (arith, length-bytes_at n b (o + 1))

load_area-Holds :
    (files : Files) (b : Bytes) (len fmap : ℕ) (arg : List ℕ)
    → Holds files b len fmap arg
    → load_area files b len fmap arg ≡ (b, true)
unfolding load_area copy_to_area
load_area-Holds files b len fmap arg h =
    let same : put_text b (le32 b h.ah) (bytes_at (le32 b (h.ah + 4)) b (le32 b h.ah)) ≡ b =
      fun_ext (put_text-bytes_at (le32 b (h.ah + 4)) b (le32 b h.ah)) in
    let nonzero : not (length (bytes_at (le32 b (h.ah + 4)) b (le32 b h.ah)) == 0) ≡ true =
      ground (arith, h.some_bytes, length-bytes_at (le32 b (h.ah + 4)) b (le32 b h.ah)) in
    option_some _ _ h.split
    ∙ option_some _ _ h.found
    ∙ option_some _ _ h.bytes
    ∙ rw (same, nonzero) refl

load_areas-Holds :
    (files : Files) (b : Bytes) (len fmap : ℕ) (argv : List (List ℕ))
    → All (Holds files b len fmap) argv
    → load_areas files b len fmap argv ≡ (b, true)
unfolding load_areas
load_areas-Holds files b len fmap [] h = refl
load_areas-Holds files b len fmap (arg ∷ argv) h =
    rw (load_area-Holds files b len fmap arg h.0) (load_areas-Holds files b len fmap argv h.1)

-- Loading areas with the bytes that they hold, as dump_fmap extracts them, succeeds and changes
-- nothing.
pub do_load_fmap-Holds :
    (files : Files) (b : Bytes) (len fmap : ℕ) (argv : List (List ℕ))
    → fmap_find b len ≡ some fmap
    → All (Holds files b len fmap) argv
    → do_load_fmap files b len argv ≡ (b, true)
unfolding do_load_fmap
do_load_fmap-Holds files b len fmap argv e h =
    option_some _ _ e ∙ load_areas-Holds files b len fmap argv h

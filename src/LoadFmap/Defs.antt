-- ===== src/LoadFmap/Defs.antt =====
-- cmd_load_fmap.c. The image is a buffer of bytes, which the loop writes to.
use futility.Prelude.{
  ℕ, ◌+◌, ◌==◌, Bool, true, false, not, ◌&&◌, Option, none, some, List, [], ◌∷◌, length,
  if◌then◌else◌,
}
use futility.Prelude.Memory.{Bytes, le32, put_text}
use futility.Prelude.Text.{cut_at_colon, named_parts}
use futility.Fmap.Defs.{fmap_find, fmap_find_by_name}

-- What fopen and fread give for a file, of at most so many bytes, and whether fclose succeeds;
-- `none` where the file cannot be opened.
abbrev pub Files : Type 0
Files = List ℕ → ℕ → Option (List ℕ × Bool)

-- The name of the area and that of the file in an argument; `none` is a bogus one.
unfoldable pub split_arg : List ℕ → Option (List ℕ × List ℕ)
unfolding cut_at_colon
split_arg arg = elim (cut_at_colon arg) [ none ↦ none | some parts ↦ named_parts parts ]

-- The functions return the image, and whether their result is 0.
module _ (files : Files) where
  -- copy_to_area, for `len` bytes at `o`. A read of no bytes is an error, one of fewer is not.
  unfoldable pub copy_to_area : List ℕ → Bytes → ℕ → ℕ → Bytes × Bool
  copy_to_area file b o len = elim (files file len) [
    | none ↦ (b, false)
    | some (text, closed) ↦ (put_text b o text, not (length text == 0) && closed)
  ]

  -- One round of the loop over the arguments.
  unfoldable pub load_area : Bytes → ℕ → ℕ → List ℕ → Bytes × Bool
  load_area b len fmap arg = elim (split_arg arg) [
    | none ↦ (b, false)
    | some (a, f) ↦ elim (fmap_find_by_name b len (some fmap) a) [
      | none ↦ (b, false)
      | some ah ↦ copy_to_area f b (le32 b ah) (le32 b (ah + 4))
    ]
  ]

  unfoldable pub load_areas : Bytes → ℕ → ℕ → List (List ℕ) → Bytes × Bool
  load_areas b len fmap [] = (b, true)
  load_areas b len fmap (arg ∷ argv) =
      let (b', fine) = load_area b len fmap arg in
      let rest = load_areas b' len fmap argv in if fine then rest else (b', false)

  -- do_load_fmap on the mapped file.
  unfoldable pub do_load_fmap : Bytes → ℕ → List (List ℕ) → Bytes × Bool
  do_load_fmap b len argv = elim (fmap_find b len) [
    | none ↦ (b, false)
    | some fmap ↦ load_areas b len fmap argv
  ]

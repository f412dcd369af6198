-- ===== src/DumpFmap/Extract.antt =====
-- dump_fmap: the function that lists the areas, as `-x` extracts them. What it prints is left out.
use futility.Prelude.{
  ℕ, zero, suc, ◌+◌, ◌==◌, ltb, ◌&&◌, not, Bool, true, false, Option, none, some, List, [], ◌∷◌,
  ◌++◌, if◌then◌else◌, u32, map,
}
use futility.Prelude.Memory.{Bytes, le32, bytes_at}
use futility.Prelude.Text.{cut_at_colon, named_parts, same_text}
use futility.Fmap.Defs.{area_at, fmap_nareas, fmap_namelen}
use futility.Prelude.Memory.{text_at}

-- The name of the area in an argument, and that of the file, if one is given; `none` is a bogus one.
unfoldable pub prepare_arg : List ℕ → Option (List ℕ × Option (List ℕ))
prepare_arg arg = elim (cut_at_colon arg) [
  | none ↦ some (arg, none)
  | some parts ↦ elim (named_parts parts) [
    | none ↦ none
    | some (name, file) ↦ some (name, some file)
  ]
]

-- The loop in front; `none` is its `return retval`.
unfoldable pub prepare_args : List (List ℕ) → Option (List (List ℕ × Option (List ℕ)))
prepare_args [] = some []
prepare_args (arg ∷ argv) =
    let rest = prepare_args argv in
    elim (prepare_arg arg) [
      | none ↦ none
      | some p ↦ elim rest [ none ↦ none | some ps ↦ some (p ∷ ps) ]
    ]

-- The search of the arguments for an area; `none` if it is not among them, else outname.
unfoldable pub find_arg : List (List ℕ × Option (List ℕ)) → List ℕ → Option (Option (List ℕ))
find_arg [] buf = none
find_arg ((name, outname) ∷ args) buf =
    let rest = find_arg args buf in if same_text name buf then some outname else rest

abbrev pub underscores : List ℕ → List ℕ
underscores buf = map (λ c. if c == b' ' then b'_' else c) buf

-- What fopen and fwrite can do, and a file as it is written.
pub record Disk : Type 0 where
  pub opens : List ℕ → Bool
  pub writes : List ℕ → List ℕ → Bool

abbrev pub File : Type 0
File = List ℕ × List ℕ

module _ (disk : Disk) (b : Bytes) (size_of_rom fmap : ℕ) where
  open disk use {opens, writes}

  -- The extraction of an area to a file: the file, if it could be opened, and whether retval stays.
  unfoldable pub save : ℕ → List ℕ → List File × Bool
  save ah outname =
      let size = le32 b (ah + 4) in
      let text = bytes_at size b (le32 b ah) in
      if not (opens outname)
      then ([], false)
      else if size == 0
      then ((outname, []) ∷ [], true)
      else if ltb size_of_rom (u32 (le32 b ah + size))
      then ((outname, []) ∷ [], false)
      else if writes outname text
      then ((outname, text) ∷ [], true)
      else ((outname, []) ∷ [], false)

  abbrev pub area_name : ℕ → List ℕ
  area_name ah = text_at fmap_namelen b (ah + 8)

  -- The loop over the areas, `left` of them from `i` on, with no arguments. `named` tells whether outname
  -- is still NULL: after the first round it points to `buf`, and spaces stay.
  unfoldable pub save_all : ℕ → ℕ → Bool → List File × Bool
  save_all zero i named = ([], true)
  save_all (suc left) i named =
      let buf = area_name (area_at fmap i) in
      let here = save (area_at fmap i) (if named then buf else underscores buf) in
      let rest = save_all left (i + 1) true in (here.0 ++ rest.0, here.1 && rest.1)

  -- The same loop with arguments.
  unfoldable pub save_named : List (List ℕ × Option (List ℕ)) → ℕ → ℕ → List File × Bool
  save_named args zero i = ([], true)
  save_named args (suc left) i =
      let buf = area_name (area_at fmap i) in
      let rest = save_named args left (i + 1) in
      elim (find_arg args buf) [
        | none ↦ rest
        | some outname ↦
            let file : List ℕ = elim outname [ none ↦ underscores buf | some f ↦ f ] in
            let here = save (area_at fmap i) file in (here.0 ++ rest.0, here.1 && rest.1)
      ]

  -- The loop over the areas, with or without arguments.
  unfoldable pub save_areas : List (List ℕ × Option (List ℕ)) → List File × Bool
  save_areas [] = save_all (fmap_nareas b fmap) 0 false
  save_areas (arg ∷ args) = save_named (arg ∷ args) (fmap_nareas b fmap) 0

  -- dump_fmap with opt_extract: the files, and whether it returns 0. What a failing fwrite leaves in a
  -- file counts as nothing.
  unfoldable pub dump_fmap : List (List ℕ) → List File × Bool
  dump_fmap argv = elim (prepare_args argv) [ none ↦ ([], false) | some args ↦ save_areas args ]

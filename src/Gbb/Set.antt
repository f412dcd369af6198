-- ===== src/Gbb/Set.antt =====
-- The set mode and the get mode of do_gbb_utility (src/cmd_gbb_utility.c), behind their options, on the
-- image and the offset of its GBB; print_hwid_digest and update_hwid_digest of src/misc.c.
use futility.Prelude.{
  ℕ, ◌+◌, ltb, leb, ◌==◌, ◌&&◌, Bool, true, false, Option, none, some, List, [], ◌∷◌, ◌++◌, length,
  if◌then◌else◌, u32,
}
use futility.Prelude.Memory.{Bytes, le32, put32, put_text, bytes_at}
use futility.Prelude.Text.{same_text}
use futility.Prelude.Memory.{text_at}
use futility.Gbb.Header.{
  Part, hwid, rootkey, bmpfv, recovery_key, part_offset, part_size, minor_version,
}
use futility.Gbb.Find.{find_gbb_header}

-- `memset(b + o, 0, n)`
abbrev pub wipe : Bytes → ℕ → ℕ → Bytes
wipe b o n = λ i. if leb o i && ltb i (o + n) then 0 else b i

-- What the command takes from elsewhere: the SHA-256 digest, the number that strtoul reads and whether it
-- reads the whole text, and the bytes of a file with the success of reading them.
pub record Outside : Type 0 where
  pub sha256 : List ℕ → List ℕ
  pub strtoul : List ℕ → ℕ × Bool
  pub file : List ℕ → Option (List ℕ × Bool)

-- The options of set mode; `none` is an option that is not given.
pub record Request : Type 0 where
  pub opt_hwid : Option (List ℕ)
  pub opt_flags : Option (List ℕ)
  pub opt_rootkey : Option (List ℕ)
  pub opt_bmpfv : Option (List ℕ)
  pub opt_recoverykey : Option (List ℕ)

-- The string at hwid_offset, which ends within `limit` bytes.
abbrev pub hwid_str : ℕ → Bytes → ℕ → List ℕ
hwid_str limit b gbb = text_at limit b (gbb + part_offset b gbb hwid)

-- What get mode prints of the HWID and of the flags, and what it exports of a component.
abbrev pub get_hwid : ℕ → Bytes → ℕ → List ℕ
get_hwid limit b gbb = if part_size b gbb hwid == 0 then [] else hwid_str limit b gbb

abbrev pub get_flags : Bytes → ℕ → ℕ
get_flags b gbb = le32 b (gbb + 12)

abbrev pub export_part : Bytes → ℕ → Part → List ℕ
export_part b gbb p = bytes_at (part_size b gbb p) b (gbb + part_offset b gbb p)

module _ (outside : Outside) (limit : ℕ) where
  open outside use {sha256, strtoul, file}

  -- The result of print_hwid_digest.
  unfoldable pub print_hwid_digest : Bytes → ℕ → Bool
  print_hwid_digest b gbb =
      if ltb (minor_version b gbb) 2
      then true
      else same_text (bytes_at 32 b (gbb + 48)) (sha256 (hwid_str limit b gbb))

  unfoldable pub update_hwid_digest : Bytes → ℕ → Bytes
  update_hwid_digest b gbb =
      if ltb (minor_version b gbb) 2
      then b
      else put_text b (gbb + 48) (sha256 (hwid_str limit b gbb))

  -- The steps of set mode: the image, and whether errorcnt stays.
  unfoldable pub set_hwid : Bytes → ℕ → List ℕ → Bytes × Bool
  set_hwid b gbb text =
      let o = gbb + part_offset b gbb hwid in
      if ltb (part_size b gbb hwid) (length text + 1) then (b, false) else (
        update_hwid_digest (put_text (wipe b o (part_size b gbb hwid)) o (text ++ 0 ∷ [])) gbb,
        true,
      )

  unfoldable pub set_flags : Bytes → ℕ → List ℕ → Bytes × Bool
  set_flags b gbb text =
      let (value, read) = strtoul text in
      if read then (put32 b (gbb + 12) (u32 value), true) else (b, false)

  -- read_from_file, for a component.
  unfoldable pub import_part : Part → Bytes → ℕ → List ℕ → Bytes × Bool
  import_part p b gbb name =
      let o = gbb + part_offset b gbb p in
      elim (file name) [
        | none ↦ (b, false)
        | some (text, read) ↦
            if ltb (part_size b gbb p) (length text)
            then (b, false)
            else (put_text (wipe b o (part_size b gbb p)) o text, read)
      ]

  -- A step, where its option is given.
  abbrev pub step :
      (Bytes → ℕ → List ℕ → Bytes × Bool) → ℕ → Option (List ℕ) → Bytes × Bool → Bytes × Bool
  step f gbb none s = s
  step f gbb (some text) (b, fine) = let (b', fine') = f b gbb text in (b', fine && fine')

  unfoldable pub set_all : Request → Bytes → ℕ → Bytes × Bool
  set_all r b gbb = step (import_part recovery_key) gbb r.opt_recoverykey (
      step (import_part bmpfv) gbb r.opt_bmpfv (
        step (import_part rootkey) gbb r.opt_rootkey
          (step set_flags gbb r.opt_flags (step set_hwid gbb r.opt_hwid (b, true)))))

  -- Set mode on a file of `size` bytes: what it writes to the output file.
  unfoldable pub do_set : Request → Bytes → ℕ → Option Bytes
  do_set r b size = elim (find_gbb_header b size) [
    | none ↦ none
    | some gbb ↦ let (b', fine) = set_all r b gbb in if fine then some b' else none
  ]

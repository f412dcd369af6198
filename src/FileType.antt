-- ===== src/FileType.antt =====
-- What kind of file a buffer holds: src/file_type.c, and the recognizers of src/misc.c,
-- src/traversal.c and src/vb1_helper.c.
pub mod Laws
mod Tests
use futility.Prelude.{ℕ, ◌+◌, ◌/=◌, ltb, Bool, true, false, ◌&&◌, ◌||◌, not}
use futility.Prelude.{Option, none, some, List, [], ◌∷◌, if◌then◌else◌, sub32, u32}
use futility.Prelude.Memory.{Bytes, le32, memcmp_eq}
use futility.Prelude.Text.{codes}
use futility.Gpt.Crc32.{crc32}
use futility.Gbb.Header.{gbb_signature, gbb_header_size, major_version}
use futility.Fmap.Defs.{fmap_find, fmap_find_by_name}
use futility.Verify.Crypto.{Crypto, RsaKey}
use futility.Verify.Defs.{public_key_to_rsa, public_key_looks_okay}
use futility.Verify.Blocks.{VbootError, success, key_block_verify, verify_firmware_preamble}
use futility.Verify.Blocks.{verify_kernel_preamble, preamble_header_valid, preamble_inside}
use futility.Verify.Blocks.{key_block_size}

-- enum futil_file_type
pub data FileType : Type 0 where
  unknown pubkey keyblock fw_preamble gbb bios_image old_bios_image kern_preamble : FileType
  raw_firmware raw_kernel chromiumos_disk privkey : FileType

abbrev pub is_success : VbootError → Bool
is_success success = true
is_success _ = false

abbrev pub is_some : Option ℕ → Bool
is_some none = false
is_some (some a) = true

abbrev pub efi_part : List ℕ
efi_part = b'E' ∷ b'F' ∷ b'I' ∷ b' ' ∷ b'P' ∷ b'A' ∷ b'R' ∷ b'T' ∷ []

abbrev pub chromeos : List ℕ
chromeos = b'C' ∷ b'H' ∷ b'R' ∷ b'O' ∷ b'M' ∷ b'E' ∷ b'O' ∷ b'S' ∷ []

-- HeaderCrc of cgptlib_internal.c on the header in sector 1: the CRC is of the header with its own
-- field, the four bytes at 16, read as zero.
unfoldable pub header_crc_at : Bytes → ℕ → ℕ
header_crc_at b h =
    crc32 (λ i. if ltb i (h + 16) then b i else if ltb i (h + 20) then 0 else b i) h
      (le32 b (h + 12))

-- recognize_gpt of src/misc.c.
unfoldable pub recognize_gpt : Bytes → ℕ → FileType
recognize_gpt b len =
    if ltb len 1024
    then unknown
    else if not (memcmp_eq b 512 efi_part) && not (memcmp_eq b 512 chromeos)
    then unknown
    else if le32 b 520 /= 0x00010000
    then unknown
    else if ltb (le32 b 524) 92 || ltb 512 (le32 b 524)
    then unknown
    else if header_crc_at b 512 /= le32 b 528
    then unknown
    else chromiumos_disk

-- recognize_gbb of src/misc.c.
unfoldable pub recognize_gbb : Bytes → ℕ → FileType
recognize_gbb b len =
    if not (memcmp_eq b 0 gbb_signature)
    then unknown
    else if ltb 1 (major_version b 0)
    then unknown
    else if ltb len gbb_header_size
    then unknown
    else gbb

-- struct bios_area_s, and the tables bios_area and old_bios_area of src/traversal.c: names, in the
-- order of traversal.
abbrev pub bios_area_names : List (List ℕ)
bios_area_names =
    codes "GBB" ∷ codes "FW_MAIN_A" ∷ codes "FW_MAIN_B" ∷ codes "VBLOCK_A" ∷ codes "VBLOCK_B" ∷ []

abbrev pub old_bios_area_names : List (List ℕ)
old_bios_area_names =
    codes "GBB Area"
    ∷ codes "Firmware A Data"
    ∷ codes "Firmware B Data"
    ∷ codes "Firmware A Key"
    ∷ codes "Firmware B Key"
    ∷ []

-- has_all_areas
unfoldable pub has_all_areas : Bytes → ℕ → ℕ → List (List ℕ) → Bool
has_all_areas b len fmap [] = true
has_all_areas b len fmap (name ∷ names) =
    if is_some (fmap_find_by_name b len (some fmap) name)
    then has_all_areas b len fmap names
    else false

-- recognize_bios_image
unfoldable pub recognize_bios_image : Bytes → ℕ → FileType
recognize_bios_image b len = elim (fmap_find b len) [
  | none ↦ unknown
  | some fmap ↦
      if has_all_areas b len fmap bios_area_names
      then bios_image
      else if has_all_areas b len fmap old_bios_area_names
      then old_bios_image
      else unknown
]

-- recognize_vblock1 of src/vb1_helper.c, for the key that PublicKeyToRSA has made of the data key.
-- `none` stands for what C leaves undefined: the key is a NULL pointer, and VerifyData reads it.
module _ (crypto : Crypto) where
  preamble_after : Bytes → ℕ → Option RsaKey → Option FileType
  preamble_after b len (some rsa) =
      let more = u32 (key_block_size b 0) in
      if is_success (verify_firmware_preamble crypto b more (sub32 len more) rsa)
      then some fw_preamble
      else if is_success (verify_kernel_preamble crypto b more (sub32 len more) rsa)
      then some kern_preamble
      else some keyblock
  preamble_after b len none =
      let more = u32 (key_block_size b 0) in
      if preamble_header_valid b more (sub32 len more)
      then none
      else if preamble_inside b more (sub32 len more) 116
      then none
      else some keyblock

  unfoldable pub recognize_vblock1 : Bytes → ℕ → Option FileType
  unfolding preamble_after
  recognize_vblock1 b len =
      if is_success (key_block_verify crypto b 0 len none true)
      then preamble_after b len (public_key_to_rsa b 80)
      else if public_key_looks_okay b 0 len
      then some pubkey
      else some unknown

  -- recognize_privkey: `parses b o n` is whether d2i_RSAPrivateKey of OpenSSL reads a key.
  module _ (parses : Bytes → ℕ → ℕ → Bool) where
    unfoldable pub recognize_privkey : Bytes → ℕ → FileType
    recognize_privkey b len =
        if ltb len 8 then unknown else if parses b 8 (sub32 len 8) then privkey else unknown

    -- `if (type != FILE_TYPE_UNKNOWN) return type;`
    abbrev pub or_else : FileType → Option FileType → Option FileType
    or_else unknown next = next
    or_else type next = some type

    abbrev pub or_else_checked : Option FileType → Option FileType → Option FileType
    or_else_checked none next = none
    or_else_checked (some type) next = or_else type next

    -- futil_file_type_buf: the recognizers in their order.
    unfoldable pub futil_file_type_buf : Bytes → ℕ → Option FileType
    futil_file_type_buf b len = or_else (recognize_gpt b len) (
        or_else (recognize_bios_image b len) (
          or_else (recognize_gbb b len) (
            or_else_checked (recognize_vblock1 b len)
              (or_else (recognize_privkey b len) (some unknown)))))

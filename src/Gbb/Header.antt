-- ===== src/Gbb/Header.antt =====
-- The header checks of src/misc.c over a buffer. GoogleBinaryBlockHeader is 128 bytes, packed:
-- signature, versions at 4 and 6, header size at 8, flags at 12, then offset and size of the HWID
-- (16, 20), the root key (24, 28), the bitmaps (32, 36) and the recovery key (40, 44), and the
-- digest of the HWID at 48.
use futility.Prelude.{ℕ, zero, suc, ◌+◌, ◌^◌, ltb, ◌==◌, ◌/=◌, Bool, true, false, not}
use futility.Prelude.{List, [], ◌∷◌, if◌then◌else◌, u32}
use futility.Prelude.Memory.{Bytes, le16, le32, memcmp_eq}

-- "$GBB"
abbrev pub gbb_signature : List ℕ
gbb_signature = b'$' ∷ b'G' ∷ b'B' ∷ b'B' ∷ []

abbrev pub gbb_header_size : ℕ
gbb_header_size = 128

abbrev pub major_version : Bytes → ℕ → ℕ
major_version b gbb = le16 b (gbb + 4)

abbrev pub minor_version : Bytes → ℕ → ℕ
minor_version b gbb = le16 b (gbb + 6)

abbrev pub header_size : Bytes → ℕ → ℕ
header_size b gbb = le32 b (gbb + 8)

-- The four components.
pub data Part : Type 0 where
  hwid rootkey bmpfv recovery_key : Part

abbrev pub part_field : Part → ℕ
part_field hwid = 16
part_field rootkey = 24
part_field bmpfv = 32
part_field recovery_key = 40

abbrev pub part_offset : Bytes → ℕ → Part → ℕ
part_offset b gbb p = le32 b (gbb + part_field p)

abbrev pub part_size : Bytes → ℕ → Part → ℕ
part_size b gbb p = le32 b (gbb + part_field p + 4)

-- The sum of two uint32_t fields.
abbrev pub part_end : Bytes → ℕ → Part → ℕ
part_end b gbb p = u32 (part_offset b gbb p + part_size b gbb p)

-- The loop of is_null_terminated, from the last of the `len` bytes at `s` down to the first.
unfoldable pub zero_among : Bytes → ℕ → ℕ → Bool
zero_among b s zero = false
zero_among b s (suc len) = if b (s + len) == 0 then true else zero_among b s len

-- is_null_terminated. Its `len` is an int: a size from 2 ^ 31 on is negative there, and the loop
-- does not run. (For 2 ^ 31 itself C leaves the decrement of the least int open; here too the loop
-- does not run.)
unfoldable pub is_null_terminated : Bytes → ℕ → ℕ → Bool
is_null_terminated b s len = if ltb len (2 ^ 31) then zero_among b s len else false

abbrev pub max_u32 : ℕ → ℕ → ℕ
max_u32 a b = if ltb b a then a else b

-- `*maxlen_ptr` of futil_valid_gbb_header.
unfoldable pub gbb_maxlen : Bytes → ℕ → ℕ
gbb_maxlen b gbb =
    max_u32
      (max_u32
        (max_u32 (max_u32 (header_size b gbb) (part_end b gbb hwid)) (part_end b gbb rootkey))
        (part_end b gbb bmpfv))
      (part_end b gbb recovery_key)

-- The tests of one component, of its offset and of its end.
unfoldable pub part_valid : Bytes → ℕ → ℕ → Part → Bool
part_valid b gbb len p =
    if ltb (part_offset b gbb p) gbb_header_size then false else not (ltb len (part_end b gbb p))

-- The test of the HWID's text.
unfoldable pub hwid_valid : Bytes → ℕ → Bool
hwid_valid b gbb =
    if part_size b gbb hwid /= 0
    then is_null_terminated b (gbb + part_offset b gbb hwid) (part_size b gbb hwid)
    else true

-- futil_valid_gbb_header
unfoldable pub futil_valid_gbb_header : Bytes → ℕ → ℕ → Bool
futil_valid_gbb_header b gbb len =
    if ltb len gbb_header_size
    then false
    else if not (memcmp_eq b gbb gbb_signature)
    then false
    else if major_version b gbb /= 1
    then false
    else if header_size b gbb /= gbb_header_size
    then false
    else if ltb len (header_size b gbb)
    then false
    else if not (part_valid b gbb len hwid)
    then false
    else if not (hwid_valid b gbb)
    then false
    else if not (part_valid b gbb len rootkey)
    then false
    else if not (part_valid b gbb len bmpfv)
    then false
    else part_valid b gbb len recovery_key

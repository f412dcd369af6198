-- ===== src/Gpt/Check.antt =====
-- The checks of libvboot_util/cgptlib/cgptlib_internal.c: CheckParameters, CheckHeader,
-- CheckEntries, HeaderFieldsSame. A buffer that may be NULL is an Option.
use futility.Prelude.{ℕ, zero, suc, ◌+◌, ◌-◌, ◌*◌, ◌/◌, ◌==◌, ◌/=◌, ltb, ◌&&◌, ◌||◌, not}
use futility.Prelude.{
  if◌then◌else◌, Bool, true, false, Option, none, some, u32, u64, sub64, bit_and,
}
use futility.Prelude.Memory.{Bytes, le32, le64, put32, memcmp_eq}
use futility.Prelude.Text.{codes}
use futility.Gpt.Crc32.{crc32}
use futility.Gpt.Entry.{entry_at, starting_lba, ending_lba, same_guid, is_unused_entry}

-- The error codes of libvboot_util/firmware/include/gpt_misc.h.
abbrev pub gpt_success : ℕ
gpt_success = 0

abbrev pub gpt_error_no_valid_kernel : ℕ
gpt_error_no_valid_kernel = 1

abbrev pub gpt_error_invalid_headers : ℕ
gpt_error_invalid_headers = 2

abbrev pub gpt_error_invalid_entries : ℕ
gpt_error_invalid_entries = 3

abbrev pub gpt_error_invalid_sector_size : ℕ
gpt_error_invalid_sector_size = 4

abbrev pub gpt_error_invalid_sector_number : ℕ
gpt_error_invalid_sector_number = 5

abbrev pub gpt_error_crc_corrupted : ℕ
gpt_error_crc_corrupted = 7

abbrev pub gpt_error_out_of_region : ℕ
gpt_error_out_of_region = 8

abbrev pub gpt_error_start_lba_overlap : ℕ
gpt_error_start_lba_overlap = 9

abbrev pub gpt_error_end_lba_overlap : ℕ
gpt_error_end_lba_overlap = 10

abbrev pub gpt_error_dup_guid : ℕ
gpt_error_dup_guid = 11

-- The fields of GptHeader.
abbrev pub size : Bytes → ℕ
size h = le32 h 12

abbrev pub header_crc32 : Bytes → ℕ
header_crc32 h = le32 h 16

abbrev pub reserved_zero : Bytes → ℕ
reserved_zero h = le32 h 20

abbrev pub my_lba : Bytes → ℕ
my_lba h = le64 h 24

abbrev pub first_usable_lba : Bytes → ℕ
first_usable_lba h = le64 h 40

abbrev pub last_usable_lba : Bytes → ℕ
last_usable_lba h = le64 h 48

abbrev pub entries_lba : Bytes → ℕ
entries_lba h = le64 h 72

abbrev pub number_of_entries : Bytes → ℕ
number_of_entries h = le32 h 80

abbrev pub size_of_entry : Bytes → ℕ
size_of_entry h = le32 h 84

abbrev pub entries_crc32 : Bytes → ℕ
entries_crc32 h = le32 h 88

unfoldable pub calculate_entries_sectors : Bytes → ℕ
calculate_entries_sectors h = (u32 (number_of_entries h * size_of_entry h) + 512 - 1) / 512

-- GPT_FLAG_EXTERNAL
abbrev pub is_external : ℕ → Bool
is_external flags = bit_and flags 1 /= 0

unfoldable pub check_parameters : ℕ → ℕ → ℕ → ℕ → ℕ
check_parameters sector_bytes streaming_drive_sectors gpt_drive_sectors flags =
    if sector_bytes /= 512
    then gpt_error_invalid_sector_size
    else if gpt_drive_sectors == 0
        || not (is_external flags) && (gpt_drive_sectors /= streaming_drive_sectors)
    then gpt_error_invalid_sector_number
    else if ltb gpt_drive_sectors (1 + 2 * (1 + 16 / (512 / 128)))
    then gpt_error_invalid_sector_number
    else gpt_success

-- The CRC is of the header with the CRC's own field 0.
unfoldable pub header_crc : Bytes → ℕ
header_crc h = crc32 (put32 h 16 0) 0 (size h)

-- The location of the header and of its entries.
abbrev pub wrong_place : Bool → Bytes → ℕ → Bool
wrong_place true h gpt_drive_sectors =
    (my_lba h /= sub64 gpt_drive_sectors 1)
    || (entries_lba h /= sub64 (my_lba h) (calculate_entries_sectors h))
wrong_place false h gpt_drive_sectors = (my_lba h /= 1) || ltb (entries_lba h) (u64 (my_lba h + 1))

-- CheckHeader: true is 0 in C, the header passes.
unfoldable pub check_header : Option Bytes → Bool → ℕ → ℕ → ℕ → Bool
check_header none is_secondary streaming_drive_sectors gpt_drive_sectors flags = false
check_header (some h) is_secondary streaming_drive_sectors gpt_drive_sectors flags =
    if not (memcmp_eq h 0 (codes "EFI PART")) && not (memcmp_eq h 0 (codes "CHROMEOS"))
    then false
    else if le32 h 8 /= 0x10000
    then false
    else if ltb (size h) 92 || ltb 512 (size h)
    then false
    else if header_crc h /= header_crc32 h
    then false
    else if reserved_zero h /= 0
    then false
    else if size_of_entry h /= 128
    then false
    else if ltb (number_of_entries h) 16
        || ltb 128 (number_of_entries h)
        || not (is_external flags) && (number_of_entries h /= 128)
    then false
    else if wrong_place is_secondary h gpt_drive_sectors
    then false
    else if ltb (last_usable_lba h) (first_usable_lba h)
    then false
    else if is_external flags
    then ltb (last_usable_lba h) streaming_drive_sectors
    else if ltb (first_usable_lba h) (2 + calculate_entries_sectors h)
    then false
    else ltb (last_usable_lba h)
        (sub64 (sub64 streaming_drive_sectors 1) (calculate_entries_sectors h))

-- The checks of the entry `i` against the entry `j`.
unfoldable pub check_pair : Bytes → ℕ → ℕ → ℕ
check_pair b i j =
    if not (ltb (starting_lba b i) (starting_lba b j))
      && not (ltb (ending_lba b j) (starting_lba b i))
    then gpt_error_start_lba_overlap
    else if not (ltb (ending_lba b i) (starting_lba b j))
        && not (ltb (ending_lba b j) (ending_lba b i))
    then gpt_error_end_lba_overlap
    else if same_guid b (entry_at i + 16) b (entry_at j + 16)
    then gpt_error_dup_guid
    else 0

-- The loop over the other entries, `left` of them from `j` on.
unfoldable pub check_others : Bytes → ℕ → ℕ → ℕ → ℕ
check_others b i zero j = 0
check_others b i (suc left) j =
    let rest = check_others b i left (j + 1) in
    let code = check_pair b i j in
    if (j == i) || is_unused_entry b j then rest else if code == 0 then rest else code

unfoldable pub out_of_region : Bytes → Bytes → ℕ → Bool
out_of_region h b i =
    ltb (starting_lba b i) (first_usable_lba h)
    || ltb (last_usable_lba h) (ending_lba b i)
    || ltb (ending_lba b i) (starting_lba b i)

-- The loop over the entries, `left` of them from `i` on.
unfoldable pub check_each : Bytes → Bytes → ℕ → ℕ → ℕ
check_each h b zero i = 0
check_each h b (suc left) i =
    let rest = check_each h b left (i + 1) in
    let code = check_others b i (number_of_entries h) 0 in
    if is_unused_entry b i
    then rest
    else if out_of_region h b i
    then gpt_error_out_of_region
    else if code == 0
    then rest
    else code

unfoldable pub check_entries : Option Bytes → Bytes → ℕ
check_entries none h = gpt_error_invalid_entries
check_entries (some b) h =
    if crc32 b 0 (u32 (size_of_entry h * number_of_entries h)) /= entries_crc32 h
    then gpt_error_crc_corrupted
    else check_each h b (number_of_entries h) 0

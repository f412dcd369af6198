-- ===== src/Gpt/Sanity.antt =====
-- GptSanityCheck and HeaderFieldsSame of libvboot_util/cgptlib/cgptlib_internal.c.
use futility.Prelude.{
  ℕ, ◌+◌, ◌==◌, ◌/=◌, ◌&&◌, not, if◌then◌else◌, Bool, true, false, Option, none, some,
}
use futility.Prelude.{all_below}
use futility.Prelude.Memory.{Bytes, le32}
use futility.Gpt.Entry.{same_guid}
use futility.Gpt.Check.{check_header, check_parameters, check_entries, gpt_success, size}
use futility.Gpt.Check.{gpt_error_invalid_headers, gpt_error_invalid_entries, reserved_zero}
use futility.Gpt.Check.{first_usable_lba, last_usable_lba, number_of_entries, size_of_entry}
use futility.Gpt.Check.{entries_crc32}

-- The part of GptData that the caller fills in. A buffer that is missing is `none`.
pub record GptData : Type 0 where
  pub primary_header : Option Bytes
  pub secondary_header : Option Bytes
  pub primary_entries : Option Bytes
  pub secondary_entries : Option Bytes
  pub sector_bytes : ℕ
  pub streaming_drive_sectors : ℕ
  pub gpt_drive_sectors : ℕ
  pub flags : ℕ

-- The result, and valid_headers and valid_entries, with 1 for the primary and 2 for the secondary.
pub record SanityResult : Type 0 where
  pub retval : ℕ
  pub valid_headers : ℕ
  pub valid_entries : ℕ

-- HeaderFieldsSame; true is 0 in C. The GUID of the disk is at 56.
unfoldable pub header_fields_same : Bytes → Bytes → Bool
header_fields_same h1 h2 =
    all_below 8 (λ i. h1 i == h2 i)
    && (le32 h1 8 == le32 h2 8)
    && (size h1 == size h2)
    && (reserved_zero h1 == reserved_zero h2)
    && (first_usable_lba h1 == first_usable_lba h2)
    && (last_usable_lba h1 == last_usable_lba h2)
    && same_guid h1 56 h2 56
    && (number_of_entries h1 == number_of_entries h2)
    && (size_of_entry h1 == size_of_entry h2)
    && (entries_crc32 h1 == entries_crc32 h2)

-- `MASK_PRIMARY` and `MASK_SECONDARY`, where the primary and the secondary are good.
abbrev pub mask : Bool → Bool → ℕ
mask primary secondary = (if primary then 1 else 0) + (if secondary then 2 else 0)

-- CheckEntries returns 0, for a header that is not NULL.
abbrev pub entries_good : Option Bytes → Option Bytes → Bool
entries_good none entries = false
entries_good (some h) entries = check_entries entries h == gpt_success

abbrev pub both_same : Option Bytes → Option Bytes → Bool
both_same (some h1) (some h2) = header_fields_same h1 h2
both_same _ _ = false

-- What follows the check of the entries, with the masks found.
abbrev pub conclude : ℕ → ℕ → Bool → SanityResult
conclude headers entries same =
    if entries == 0
    then record {
      retval = gpt_error_invalid_entries;
      valid_headers = headers;
      valid_entries = entries;
    }
    else record {
      retval = gpt_success;
      valid_headers = if (headers == 3) && not same then 1 else headers;
      valid_entries = entries;
    }

-- The entries are checked with the good header and, if both are good and no entries are, with the
-- secondary.
unfoldable pub check_tables : GptData → Bool → Bool → SanityResult
check_tables gpt good1 good2 =
    let good = if good1 then gpt.primary_header else gpt.secondary_header in
    let first =
      mask (entries_good good gpt.primary_entries) (entries_good good gpt.secondary_entries) in
    let second =
      mask (entries_good gpt.secondary_header gpt.primary_entries)
        (entries_good gpt.secondary_header gpt.secondary_entries) in
    let same = both_same gpt.primary_header gpt.secondary_header in
    if good1 && good2 && (first == 0)
    then conclude (if second == 0 then 3 else 2) second same
    else conclude (mask good1 good2) first same

abbrev pub header_good : GptData → Option Bytes → Bool → Bool
header_good gpt h is_secondary =
    check_header h is_secondary gpt.streaming_drive_sectors gpt.gpt_drive_sectors gpt.flags

unfoldable pub gpt_sanity_check : GptData → SanityResult
gpt_sanity_check gpt =
    let parameters =
      check_parameters gpt.sector_bytes gpt.streaming_drive_sectors gpt.gpt_drive_sectors
        gpt.flags in
    let good1 = header_good gpt gpt.primary_header false in
    let good2 = header_good gpt gpt.secondary_header true in
    if parameters /= gpt_success
    then record { retval = parameters; valid_headers = 0; valid_entries = 0 }
    else if not good1 && not good2
    then record { retval = gpt_error_invalid_headers; valid_headers = 0; valid_entries = 0 }
    else check_tables gpt good1 good2

-- ===== src/Gpt/Repair.antt =====
-- GptRepair, GptModified and GptInit of libvboot_util/cgptlib, on the whole of GptData. Where C
-- copies from or to a NULL pointer, or almost 2^64 bytes, the result is `none`.
use futility.Prelude.{ℕ, ◌+◌, ◌*◌, ◌^◌, ◌==◌, ◌/=◌, ◌||◌, leb, if◌then◌else◌}
use futility.Prelude.{Option, none, some, u32, u64, sub64, bit_or}
use futility.Prelude.Memory.{Bytes, put32}
use futility.Prelude.Copy.{copy, put64}
use futility.Gpt.Crc32.{crc32}
use futility.Gpt.Check.{my_lba, number_of_entries, size_of_entry, calculate_entries_sectors}
use futility.Gpt.Check.{header_crc, gpt_success}
use futility.Gpt.Sanity.{GptData, gpt_sanity_check}
use futility.Gpt.Kernel.{KernelState, gpt_init}

-- GptData: what the caller fills in, with the buffers, and what the library keeps.
pub record GptState : Type 0 where
  pub tables : GptData
  pub modified : ℕ
  pub kernel : KernelState
  pub valid_headers : ℕ
  pub valid_entries : ℕ

-- The bits of `modified`.
abbrev pub gpt_modified_header1 : ℕ
gpt_modified_header1 = 1

abbrev pub gpt_modified_header2 : ℕ
gpt_modified_header2 = 2

abbrev pub gpt_modified_entries1 : ℕ
gpt_modified_entries1 = 4

abbrev pub gpt_modified_entries2 : ℕ
gpt_modified_entries2 = 8

-- `h->header_crc32 = HeaderCrc(h)`
abbrev pub with_crc : Bytes → Bytes
with_crc h = put32 h 16 (header_crc h)

-- The fields of the copy that is repaired: my_lba, alternate_lba, entries_lba and the CRC.
unfoldable pub placed : Bytes → ℕ → ℕ → ℕ → Bytes
placed h my_lba alternate_lba entries_lba =
    with_crc (put64 (put64 (put64 h 24 my_lba) 32 alternate_lba) 72 entries_lba)

-- The secondary header from the primary one. sizeof(GptHeader) is 92.
unfoldable pub repaired_second : Bytes → Bytes → ℕ → Bytes
repaired_second header1 header2 gpt_drive_sectors =
    let my_lba = sub64 gpt_drive_sectors 1 in
    placed (copy header2 0 header1 0 92) my_lba 1 (sub64 my_lba (calculate_entries_sectors header1))

-- The primary header from the secondary one.
unfoldable pub repaired_first : Bytes → Bytes → ℕ → Bytes
repaired_first header1 header2 streaming_drive_sectors =
    placed (copy header1 0 header2 0 92) 1 (sub64 streaming_drive_sectors 1) (u64 (1 + 1))

-- The repair of the headers, which are not NULL.
unfoldable pub repair_headers : GptState → Bytes → Bytes → GptState
repair_headers g header1 header2 =
    if g.valid_headers == 1
    then record g {
      tables = record g.tables {
        secondary_header = some (repaired_second header1 header2 g.tables.gpt_drive_sectors);
      };
      modified = bit_or g.modified gpt_modified_header2;
      valid_headers = 3;
    }
    else if g.valid_headers == 2
    then record g {
      tables = record g.tables {
        primary_header = some (repaired_first header1 header2 g.tables.streaming_drive_sectors);
      };
      modified = bit_or g.modified gpt_modified_header1;
      valid_headers = 3;
    }
    else record g { valid_headers = 3 }

-- The number of bytes of entries, by the primary header.
abbrev pub entries_size : Bytes → ℕ
entries_size h = u32 (size_of_entry h * number_of_entries h)

-- The repair of the entries, `size` bytes.
unfoldable pub repair_entries : GptState → Bytes → Bytes → ℕ → GptState
repair_entries g entries1 entries2 size =
    if g.valid_entries == 1
    then record g {
      tables = record g.tables { secondary_entries = some (copy entries2 0 entries1 0 size) };
      modified = bit_or g.modified gpt_modified_entries2;
      valid_entries = 3;
    }
    else if g.valid_entries == 2
    then record g {
      tables = record g.tables { primary_entries = some (copy entries1 0 entries2 0 size) };
      modified = bit_or g.modified gpt_modified_entries1;
      valid_entries = 3;
    }
    else record g { valid_entries = 3 }

-- Two pointers that are used, neither NULL.
abbrev pub both {ℓ} :
    {A : Type ℓ} → Option Bytes → Option Bytes → (Bytes → Bytes → Option A) → Option A
both none q f = none
both (some a) none f = none
both (some a) (some b) f = f a b

-- Both entries are used only where one of them is bad.
abbrev pub finish_repair : GptState → Option GptState
finish_repair g = elim g.tables.primary_header [
  | none ↦ none
  | some header1 ↦
      if g.valid_entries == 3
      then some g
      else if leb (2 ^ 31) (entries_size header1)
      then none
      else both g.tables.primary_entries g.tables.secondary_entries
          (λ entries1 entries2. some (repair_entries g entries1 entries2 (entries_size header1)))
]

unfoldable pub gpt_repair : GptState → Option GptState
gpt_repair g =
    if (g.valid_headers == 0) || (g.valid_entries == 0)
    then some g
    else if g.valid_headers == 3
    then finish_repair g
    else both g.tables.primary_header g.tables.secondary_header
        (λ header1 header2. finish_repair (repair_headers g header1 header2))

-- GptInit: the result, and the data after it.
unfoldable pub gpt_init_tables : GptData → Option (ℕ × GptState)
gpt_init_tables tables =
    let found = gpt_sanity_check tables in
    let g : GptState = record {
      tables = tables;
      modified = 0;
      kernel = gpt_init;
      valid_headers = found.valid_headers;
      valid_entries = found.valid_entries;
    } in
    if found.retval /= gpt_success
    then some (found.retval, g)
    else elim (gpt_repair g) [ none ↦ none | some g' ↦ some (gpt_success, g') ]

-- The header with the CRC of the entries, and its own.
unfoldable pub signed_header : Bytes → Bytes → Bytes
signed_header h entries = with_crc (put32 h 88 (crc32 entries 0 (entries_size h)))

-- GptModified
unfoldable pub gpt_modified : GptState → Option GptState
gpt_modified g = both g.tables.primary_header g.tables.primary_entries λ header entries.
    gpt_repair (record g {
      tables = record g.tables { primary_header = some (signed_header header entries) };
      modified = bit_or g.modified (gpt_modified_header1 + gpt_modified_entries1);
      valid_headers = 1;
      valid_entries = 1;
    })

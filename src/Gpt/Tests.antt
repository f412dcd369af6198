-- ===== src/Gpt/Tests.antt =====
-- Partition tables with two kernels.
use futility.Prelude.{
  ℕ, none, true, false, ltb, ◌==◌, if◌then◌else◌, ◌*◌, ◌≡◌, ◌↔◌, refl, arith, u32, some, [], ◌∷◌,
  get_or,
}
use futility.Prelude.{all_below}
use futility.Prelude.Memory.{Bytes, put_all, put_text, put32, memcmp_eq}
use futility.Gpt.Crc32.{crc32, crc32_tab, shift_byte, crc32_tab_lem}
use futility.Gpt.Entry.{chromeos_kernel, is_unused_entry, is_kernel_entry, get_entry_priority}
use futility.Gpt.Entry.{get_entry_successful, get_entry_tries}
use futility.Gpt.Check.{check_entries, check_each, check_others, check_pair, out_of_region}
use futility.Gpt.Check.{gpt_success, size_of_entry, number_of_entries, entries_crc32}
use futility.Gpt.Check.{check_header, header_crc, calculate_entries_sectors}
use futility.Gpt.Check.{check_parameters, entries_lba}
use futility.Gpt.Sanity.{GptData, gpt_sanity_check, check_tables}
use futility.Gpt.Sane.{Side, Sane, gpt_sanity_check-Sane}
use futility.Gpt.Region.{UsableRegion, SecondPlace, check_header-UsableRegion}
use futility.Gpt.Region.{check_header-SecondPlace}
use futility.Gpt.Clear.{OffTables, check_entries-OffTables}
use futility.Gpt.Overlap.{EntriesValid, check_entries_iff}
use futility.Gpt.Kernel.{
  gpt_init, KernelState, gpt_next_kernel_entry, choose, scan_same, same_priority,
}
use futility.Gpt.Kernel.{lower_priority, is_bootable}
use futility.Gpt.Order.{IsNext, gpt_next_kernel_entry-IsNext}

-- A kernel of priority 2 with three tries, and one of priority 5 that has booted.
abbrev entries : Bytes
entries = put_all (put_text (put_text (λ i. 0) 0 chromeos_kernel) 128 chromeos_kernel) (
    (16, 1)
    ∷ (32, 40)
    ∷ (40, 49)
    ∷ (52, 0x320000)
    ∷ (144, 2)
    ∷ (160, 50)
    ∷ (168, 60)
    ∷ (180, 0x1050000)
    ∷ [])

abbrev header : Bytes
header =
    put_all (λ i. 0) ((40, 34) ∷ (48, 100) ∷ (80, 2) ∷ (84, 128) ∷ (88, crc32 entries 0 256) ∷ [])

entries_test : check_entries (some entries) header ≡ gpt_success
unfolding check_entries check_each check_others check_pair out_of_region is_unused_entry all_below
    crc32 put32
entries_test = refl

check_entries_iff_example : (check_entries (some entries) header ≡ gpt_success) ↔ (
    (crc32 entries 0 (u32 (size_of_entry header * number_of_entries header)) ≡ entries_crc32 header)
    × EntriesValid header entries)
check_entries_iff_example = check_entries_iff header entries

kernel_test :
    gpt_next_kernel_entry header entries gpt_init
    ≡ (record { current_kernel = some 1; current_priority = 5 }, some (50, 11))
unfolding gpt_next_kernel_entry choose scan_same lower_priority is_bootable is_kernel_entry
    memcmp_eq get_entry_priority get_entry_successful get_entry_tries put32
kernel_test = refl

abbrev found_first : KernelState
found_first = record { current_kernel = some 1; current_priority = 5 }

next_test :
    gpt_next_kernel_entry header entries found_first
    ≡ (record { current_kernel = some 0; current_priority = 2 }, some (40, 10))
unfolding gpt_next_kernel_entry choose scan_same lower_priority same_priority is_bootable
    is_kernel_entry memcmp_eq get_entry_priority get_entry_successful get_entry_tries put32
next_test = refl

gpt_next_kernel_entry-IsNext_example :
    (let t = (gpt_next_kernel_entry header entries found_first).0 in
      IsNext header entries found_first t t.current_kernel)
gpt_next_kernel_entry-IsNext_example = gpt_next_kernel_entry-IsNext header entries found_first

crc32_tab_lem_test : get_or crc32_tab 5 0 ≡ shift_byte 5
crc32_tab_lem_test = crc32_tab_lem 5 (omega arith)

-- The second header of a drive of 200 sectors.
abbrev unsigned : Bytes
unsigned =
    put_all (λ i. 0)
      ((0, 0x20494645)
        ∷ (4, 0x54524150)
        ∷ (8, 0x10000)
        ∷ (12, 92)
        ∷ (24, 199)
        ∷ (40, 34)
        ∷ (48, 166)
        ∷ (72, 167)
        ∷ (80, 128)
        ∷ (84, 128)
        ∷ [])

abbrev second : Bytes
second = put32 unsigned 16 (crc32 unsigned 0 92)

second_test : check_header (some second) true 200 200 0 ≡ true
unfolding check_header header_crc crc32 put32 memcmp_eq calculate_entries_sectors
second_test = refl

check_header-UsableRegion_test : UsableRegion second 200
check_header-UsableRegion_test =
    check_header-UsableRegion second 200 200 0 true refl (omega arith) (omega arith) second_test

check_header-SecondPlace_test : SecondPlace second 200
check_header-SecondPlace_test =
    check_header-SecondPlace second 200 200 0 refl (omega arith) (omega arith) second_test

-- A table of 16 unused entries on a device of its own, with no second copy.
abbrev no_entries : Bytes
no_entries = λ i. 0

abbrev unsigned_first : Bytes
unsigned_first =
    put_all (λ i. 0)
      ((0, 0x20494645)
        ∷ (4, 0x54524150)
        ∷ (8, 0x10000)
        ∷ (12, 92)
        ∷ (24, 1)
        ∷ (40, 34)
        ∷ (48, 100)
        ∷ (72, 2)
        ∷ (80, 16)
        ∷ (84, 128)
        ∷ (88, crc32 no_entries 0 2048)
        ∷ [])

abbrev external : GptData
external = record {
  primary_header = some (put32 unsigned_first 16 (crc32 unsigned_first 0 92));
  secondary_header = none;
  primary_entries = some no_entries;
  secondary_entries = none;
  sector_bytes = 512;
  streaming_drive_sectors = 200;
  gpt_drive_sectors = 64;
  flags = 1;
}

external_test : (gpt_sanity_check external).retval ≡ gpt_success
unfolding gpt_sanity_check check_tables check_parameters check_header header_crc crc32 put32
    memcmp_eq calculate_entries_sectors check_entries check_each is_unused_entry all_below
external_test = refl

gpt_sanity_check-Sane_example : (side : Side) × Sane external (gpt_sanity_check external) side
gpt_sanity_check-Sane_example = gpt_sanity_check-Sane external external_test

-- The first table of a drive of 200 sectors: a kernel in the sectors 40 to 49.
abbrev full_entries : Bytes
full_entries = λ i.
    if ltb 48 i
    then 0
    else put_text (λ j. if j == 32 then 40 else if j == 40 then 49 else 0) 0 chromeos_kernel i

-- The first header, of a table at `table_lba`.
abbrev unsigned_at : ℕ → Bytes
unsigned_at table_lba =
    put_all (λ i. 0)
      ((0, 0x20494645)
        ∷ (4, 0x54524150)
        ∷ (8, 0x10000)
        ∷ (12, 92)
        ∷ (24, 1)
        ∷ (40, 34)
        ∷ (48, 166)
        ∷ (72, table_lba)
        ∷ (80, 128)
        ∷ (84, 128)
        ∷ (88, 0x28c54f39)
        ∷ [])

abbrev first_at : ℕ → Bytes
first_at table_lba = put32 (unsigned_at table_lba) 16 (crc32 (unsigned_at table_lba) 0 92)

first_test : check_header (some (first_at 2)) false 200 200 0 ≡ true
unfolding check_header header_crc crc32 put32 memcmp_eq calculate_entries_sectors
first_test = refl

full_test : check_entries (some full_entries) (first_at 2) ≡ gpt_success
unfolding check_entries check_each check_others check_pair out_of_region is_unused_entry all_below
    crc32 put32
full_test = refl

used_test : is_unused_entry full_entries 0 ≡ false
unfolding is_unused_entry all_below
used_test = refl

entries_lba_test : entries_lba (first_at 2) ≡ 2
unfolding crc32 put32
entries_lba_test = refl

number_test : number_of_entries (first_at 2) ≡ 128
unfolding crc32 put32
number_test = refl

check_entries-OffTables_example : OffTables (first_at 2) 200 45
check_entries-OffTables_example =
    check_entries-OffTables (first_at 2) full_entries 200 0 false refl (omega arith) (omega arith)
      first_test (λ e. entries_lba_test) full_test 0 45 (rw number_test (omega arith)) used_test
      (omega arith) (omega arith)

-- A first header is accepted with its table in the usable region, which is from 34 to 166.
table_inside_test : check_header (some (first_at 100)) false 200 200 0 ≡ true
unfolding check_header header_crc crc32 put32 memcmp_eq calculate_entries_sectors
table_inside_test = refl

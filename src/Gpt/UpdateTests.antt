-- ===== src/Gpt/UpdateTests.antt =====
-- Partition tables that are repaired and updated.
use futility.Prelude.{◌≡◌, refl, some, false, [], ◌∷◌}
use futility.Prelude.{all_below}
use futility.Prelude.Memory.{Bytes, put_all, put_text, put32, memcmp_eq}
use futility.Prelude.Copy.{copy, put64}
use futility.Gpt.Crc32.{crc32}
use futility.Gpt.Entry.{chromeos_kernel, is_unused_entry, get_entry_successful}
use futility.Gpt.Check.{check_entries, check_each, check_others, check_pair, out_of_region}
use futility.Gpt.Check.{gpt_success, check_header, header_crc, calculate_entries_sectors}
use futility.Gpt.Check.{check_parameters, number_of_entries}
use futility.Gpt.Sanity.{GptData, gpt_sanity_check, check_tables, header_fields_same}
use futility.Gpt.Kernel.{is_bootable, gpt_init}
use futility.Gpt.Repair.{GptState, gpt_init_tables, repaired_second, placed}
use futility.Gpt.Intact.{IsIntact}
use futility.Gpt.Update.{
  entry_try, update_entry, gpt_update_kernel_with_entry, gpt_find_nth_entry, find_nth,
}
use futility.Gpt.Updated.{Outcome, update_entry-Outcome}
use futility.Gpt.Tries.{try_times, try_times-not_bootable}
use futility.Gpt.Nth.{IsNth, gpt_find_nth_entry-IsNth}
use futility.Gpt.Finish.{tables}
use futility.Gpt.Initialize.{gpt_init_tables-IsIntact}
use futility.Gpt.Keeps.{KeepsIntact, gpt_update_kernel_with_entry-IsIntact}

-- A kernel of priority 2 with three tries, in the second entry.
abbrev entries : Bytes
entries =
    put_all (put_text (λ i. 0) 128 chromeos_kernel)
      ((144, 1) ∷ (160, 40) ∷ (168, 49) ∷ (180, 0x320000) ∷ [])

update_entry-Outcome_example : Outcome entry_try entries 1 (update_entry entry_try entries 1)
update_entry-Outcome_example = update_entry-Outcome entry_try entries 1

not_successful : get_entry_successful entries 1 ≡ 0
unfolding get_entry_successful put32
not_successful = refl

try_times-not_bootable_example : is_bootable (try_times 15 entries 1) 1 ≡ false
try_times-not_bootable_example = try_times-not_bootable entries 1 not_successful

-- A table of sixteen entries on a device of its own.
abbrev unsigned : Bytes
unsigned =
    put_all (λ i. 0)
      ((0, 0x20494645)
        ∷ (4, 0x54524150)
        ∷ (8, 0x10000)
        ∷ (12, 92)
        ∷ (24, 1)
        ∷ (40, 34)
        ∷ (48, 100)
        ∷ (72, 2)
        ∷ (80, 16)
        ∷ (84, 128)
        ∷ (88, crc32 entries 0 2048)
        ∷ [])

abbrev first : Bytes
first = put32 unsigned 16 (crc32 unsigned 0 92)

abbrev nothing : Bytes
nothing = λ i. 0

-- The second copy is missing.
one_copy_test :
    (gpt_sanity_check
      (tables 512 200 64 1 (some first) (some nothing) (some entries) (some nothing))).retval
    ≡ gpt_success
unfolding gpt_sanity_check check_tables check_parameters check_header header_crc crc32 put32
    memcmp_eq calculate_entries_sectors check_entries check_each is_unused_entry all_below
    check_others check_pair out_of_region
one_copy_test = refl

gpt_init_tables-IsIntact_example :
    (g' : GptState) × (gpt_init_tables
        (tables 512 200 64 1 (some first) (some nothing) (some entries) (some nothing))
      ≡ some (gpt_success, g'))
    × IsIntact g'.tables
gpt_init_tables-IsIntact_example =
    gpt_init_tables-IsIntact 512 200 64 1 first nothing entries nothing one_copy_test

-- The table as the repair leaves it.
abbrev repaired : GptData
repaired =
    tables 512 200 64 1 (some first) (some (repaired_second first nothing 64)) (some entries)
      (some entries)

repaired_test : IsIntact repaired
unfolding gpt_sanity_check check_tables check_parameters check_header header_crc crc32 put32
    memcmp_eq calculate_entries_sectors check_entries check_each is_unused_entry all_below
    check_others check_pair out_of_region repaired_second placed copy put64 header_fields_same
repaired_test = refl

abbrev running : GptState
running = record {
  tables = repaired;
  modified = 0;
  kernel = gpt_init;
  valid_headers = 3;
  valid_entries = 3;
}

gpt_update_kernel_with_entry-IsIntact_example :
    KeepsIntact (gpt_update_kernel_with_entry running 1 1)
gpt_update_kernel_with_entry-IsIntact_example =
    gpt_update_kernel_with_entry-IsIntact running 1 1 repaired_test

abbrev kernel_type : Bytes
kernel_type = put_text nothing 0 chromeos_kernel

find_test : gpt_find_nth_entry first entries kernel_type 0 ≡ some 1
unfolding gpt_find_nth_entry find_nth all_below crc32 put32
find_test = refl

gpt_find_nth_entry-IsNth_example :
    IsNth entries kernel_type
      (number_of_entries first)
      0
      (gpt_find_nth_entry first entries kernel_type 0)
gpt_find_nth_entry-IsNth_example = gpt_find_nth_entry-IsNth first entries kernel_type 0

-- ===== src/Gpt/Region.antt =====
-- The usable region and the second table's place in a header that CheckHeader accepts.
use futility.Prelude.{ℕ, ◌+◌, ◌^◌, ◌≤◌, ◌<◌, ◌≡◌, refl, arith, true, false, Bool, some}
use futility.Prelude.Memory.{Bytes}
use futility.Gpt.Check.{check_header, calculate_entries_sectors, is_external, size_of_entry}
use futility.Gpt.Check.{number_of_entries, first_usable_lba, last_usable_lba, my_lba, entries_lba}

full_table :
    (h : Bytes)
    → number_of_entries h ≡ 128
    → size_of_entry h ≡ 128
    → calculate_entries_sectors h ≡ 32
unfolding calculate_entries_sectors
full_table h n s = rw (n, s) refl

-- The usable sectors leave out the first 34 of the drive and its last 33, which is where the two
-- headers and tables are if the first table follows its header.
pub record UsableRegion (h : Bytes) (streaming_drive_sectors : ℕ) : Type 0 where
  pub after_first : 34 ≤ first_usable_lba h
  pub in_order : first_usable_lba h ≤ last_usable_lba h
  pub before_second : last_usable_lba h + 33 < streaming_drive_sectors

-- The second header is the last sector of the drive, and its table ends in front of it.
pub record SecondPlace (h : Bytes) (gpt_drive_sectors : ℕ) : Type 0 where
  pub last_sector : my_lba h + 1 ≡ gpt_drive_sectors
  pub table_before : entries_lba h + 32 ≡ my_lba h

module _ (h : Bytes) (streaming_drive_sectors gpt_drive_sectors flags : ℕ) where
  -- If the table is on the drive itself, and the drive has at least 33 sectors, then a header that
  -- CheckHeader accepts leaves the first 34 and the last 33 sectors out of its usable region.
  pub check_header-UsableRegion :
      (is_secondary : Bool)
      → is_external flags ≡ false
      → 33 ≤ streaming_drive_sectors
      → streaming_drive_sectors < 2 ^ 64
      → check_header (some h) is_secondary streaming_drive_sectors gpt_drive_sectors flags ≡ true
      → UsableRegion h streaming_drive_sectors
  unfolding check_header
  check_header-UsableRegion is_secondary internal large small accepted =
      let table = full_table h (ground arith) (ground arith) in
      record { after_first = ground arith; in_order = ground arith; before_second = ground arith }

  -- If the table is on the drive itself, of at least 33 sectors, then a second header that
  -- CheckHeader accepts says that it is the last sector, and that its table ends in front of it.
  pub check_header-SecondPlace :
      is_external flags ≡ false
      → 33 ≤ gpt_drive_sectors
      → gpt_drive_sectors < 2 ^ 64
      → check_header (some h) true streaming_drive_sectors gpt_drive_sectors flags ≡ true
      → SecondPlace h gpt_drive_sectors
  unfolding check_header
  check_header-SecondPlace internal large small accepted =
      let table = full_table h (ground arith) (ground arith) in
      record { last_sector = ground arith; table_before = ground arith }

-- ===== src/Gpt/Clear.antt =====
-- Where the partitions lie of which CheckHeader and CheckEntries have accepted the header and the
-- table: src/libvboot_util/cgptlib/cgptlib_internal.c.
use futility.Prelude.{
  ℕ, ◌+◌, ◌^◌, ◌≤◌, ◌<◌, ◌≡◌, ◌≢◌, ◌⊎◌, inl, inr, arith, refl, true, false, Bool, some,
}
use futility.Prelude.Memory.{Bytes}
use futility.Gpt.Entry.{starting_lba, ending_lba, is_unused_entry}
use futility.Gpt.Check.{check_header, check_entries, is_external, gpt_success, number_of_entries}
use futility.Gpt.Check.{my_lba, entries_lba}
use futility.Gpt.Region.{check_header-UsableRegion, check_header-SecondPlace}
use futility.Gpt.Overlap.{check_entries_iff}

-- A sector of a drive that is neither one of the first 34 nor one of the last 33, and is not in the
-- header `h` or in the 32 sectors of the table that `h` says it has.
pub record OffTables (h : Bytes) (drive_sectors x : ℕ) : Type 0 where
  pub after_first : 34 ≤ x
  pub before_second : x + 33 < drive_sectors
  pub off_header : x ≢ my_lba h
  pub off_entries : (x < entries_lba h) ⊎ (entries_lba h + 32 ≤ x)

module _ (h b : Bytes) (drive_sectors flags : ℕ) where
  -- CheckHeader asks for the first header to be in sector 1.
  first_header : check_header (some h) false drive_sectors drive_sectors flags ≡ true → my_lba h ≡ 1
  unfolding check_header
  first_header accepted = ground arith

  off_own_table :
      (is_secondary : Bool) (x : ℕ)
      → is_external flags ≡ false
      → 33 ≤ drive_sectors
      → drive_sectors < 2 ^ 64
      → check_header (some h) is_secondary drive_sectors drive_sectors flags ≡ true
      → (is_secondary ≡ false → entries_lba h ≡ 2)
      → 34 ≤ x
      → x + 33 < drive_sectors
      → OffTables h drive_sectors x
  off_own_table true x internal large small accepted follows low high =
      let place =
        check_header-SecondPlace h drive_sectors drive_sectors flags internal large small
          accepted in
      record {
        after_first = low;
        before_second = high;
        off_header = λ e. omega (arith, place.last_sector);
        off_entries = inl (omega (arith, place.last_sector, place.table_before));
      }
  off_own_table false x internal large small accepted follows low high = record {
    after_first = low;
    before_second = high;
    off_header = λ e. omega (arith, first_header accepted);
    off_entries = inr (omega (arith, follows refl));
  }

  -- The table is on the drive itself, of at least 33 sectors, CheckHeader accepts the header, for
  -- the first of the two or for the second, and CheckEntries accepts the entries with it. If the
  -- header is the second, or its table follows it (at sector 2), then no sector of a partition in
  -- use is one of the first 34 or of the last 33 of the drive, or is the header's own sector or one
  -- of the 32 of its table.
  pub check_entries-OffTables :
      (is_secondary : Bool)
      → is_external flags ≡ false
      → 33 ≤ drive_sectors
      → drive_sectors < 2 ^ 64
      → check_header (some h) is_secondary drive_sectors drive_sectors flags ≡ true
      → (is_secondary ≡ false → entries_lba h ≡ 2)
      → check_entries (some b) h ≡ gpt_success
      → (i x : ℕ) → i < number_of_entries h
      → is_unused_entry b i ≡ false
      → starting_lba b i ≤ x
      → x ≤ ending_lba b i
      → OffTables h drive_sectors x
  check_entries-OffTables is_secondary internal large small accepted follows passed i x l used low
        high =
      let (region, apart) = ((check_entries_iff h b).0 passed).1 i l used in
      let usable =
        check_header-UsableRegion h drive_sectors drive_sectors flags is_secondary internal large
          small accepted in
      off_own_table is_secondary x internal large small accepted follows
        (omega (arith, region, usable.after_first)) (omega (arith, region, usable.before_second))

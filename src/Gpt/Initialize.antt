-- ===== src/Gpt/Initialize.antt =====
-- GptRepair and GptInit leave two good copies of the table.
use futility.Prelude.{ℕ, zero, suc, ◌≤◌, ◌<◌, ◌==◌, true, false, ◌≡◌, refl, arith, sym}
use futility.Prelude.{some, ==_iff}
use futility.Prelude.Memory.{Bytes}
use futility.Gpt.Check.{check_header, check_parameters, gpt_success, entries_crc32}
use futility.Gpt.Sanity.{GptData, gpt_sanity_check, entries_good}
use futility.Gpt.Sanity.{header_fields_same}
use futility.Gpt.Sane.{Side, Sane, primary, secondary, bit, is_secondary, gpt_sanity_check-Sane}
use futility.Gpt.Kernel.{KernelState, gpt_init}
use futility.Gpt.Repair.{GptState, gpt_repair, repair_headers, repaired_first, repaired_second}
use futility.Gpt.Repair.{gpt_init_tables}
use futility.Gpt.Intact.{Copies, IsIntact, Copies-IsIntact, gpt_sanity_check-Found}
use futility.Gpt.Repaired.{SameFields, same_number, same_entry_size, same_first, same_last}
use futility.Gpt.Placed.{repaired_second-IsCopy, repaired_first-IsCopy}
use futility.Gpt.Placed.{header_fields_same_lem}
use futility.Gpt.Moved.{SameTable, check_entries-header, header_fields_same-SameTable}
use futility.Gpt.Moved.{SameTable-symm, header_fields_same-crc}
use futility.Gpt.Finish.{tables, table_of, finish_repair-Copies}

pub SameFields-SameTable : (h g : Bytes) → SameFields h g → SameTable h g
SameFields-SameTable h g same = record {
  number = same_number h g same;
  entry_size = same_entry_size h g same;
  first = same_first h g same;
  last = same_last h g same;
}

-- Marked tables pass with another header too.
marked_with :
    (h g b1 b2 : Bytes) (valid_entries : ℕ)
    → SameTable h g
    → entries_crc32 h ≡ entries_crc32 g
    → ((s : Side)
        → bit s valid_entries ≡ 1
        → entries_good (some h) (table_of s (some b1) (some b2)) ≡ true)
    → (s : Side) → bit s valid_entries ≡ 1
    → entries_good (some g) (table_of s (some b1) (some b2)) ≡ true
marked_with h g b1 b2 ve same crc marked primary m =
    (==_iff _ _).1 (check_entries-header b1 h g same crc ((==_iff _ _).0 (marked primary m)))
marked_with h g b1 b2 ve same crc marked secondary m =
    (==_iff _ _).1 (check_entries-header b2 h g same crc ((==_iff _ _).0 (marked secondary m)))

module _ (sector_bytes streaming_drive_sectors gpt_drive_sectors flags : ℕ)
    (h1 h2 b1 b2 : Bytes) where
  abbrev pub header_at : Side → Bytes
  header_at primary = h1
  header_at secondary = h2

  -- What GptSanityCheck has found of tables whose buffers are there.
  pub record Checked (valid_headers valid_entries : ℕ) (side : Side) : Type 0 where
    pub parameters :
        check_parameters sector_bytes streaming_drive_sectors gpt_drive_sectors flags ≡ gpt_success
    pub marked : bit side valid_headers ≡ 1
    pub good :
        (s : Side)
        → bit s valid_headers ≡ 1
        → check_header
            (some (header_at s))
            (is_secondary s)
            streaming_drive_sectors
            gpt_drive_sectors
            flags
          ≡ true
    pub same : valid_headers ≡ 3 → header_fields_same h1 h2 ≡ true
    pub few_headers : valid_headers ≤ 3
    pub passing :
        (s : Side)
        → bit s valid_entries ≡ 1
        → entries_good (some (header_at side)) (table_of s (some b1) (some b2)) ≡ true
    pub some_entries : 0 < valid_entries
    pub few_entries : valid_entries ≤ 3

  abbrev pub state : ℕ → ℕ → ℕ → KernelState → GptState
  state modified valid_headers valid_entries kernel = record {
    tables =
        tables sector_bytes streaming_drive_sectors gpt_drive_sectors flags (some h1) (some h2)
          (some b1) (some b2);
    modified = modified;
    kernel = kernel;
    valid_headers = valid_headers;
    valid_entries = valid_entries;
  }

  -- Both headers are marked: what passes with either passes with the primary one.
  pub with_primary :
      {ve : ℕ} (side : Side)
      → Checked 3 ve side
      → (s : Side) → bit s ve ≡ 1
      → entries_good (some h1) (table_of s (some b1) (some b2)) ≡ true
  with_primary primary c = c.passing
  with_primary {ve} secondary c =
      let same = c.same refl in
      marked_with h2 h1 b1 b2 ve (SameTable-symm h1 h2 (header_fields_same-SameTable h1 h2 same))
        (sym (header_fields_same-crc h1 h2 same)) c.passing

  pub gpt_repair-Copies :
      (modified valid_headers valid_entries : ℕ) (kernel : KernelState) (side : Side)
      → Checked valid_headers valid_entries side
      → (g' : GptState) × (gpt_repair (state modified valid_headers valid_entries kernel) ≡ some g')
        × Copies g'.tables
  unfolding gpt_repair repair_headers
  gpt_repair-Copies m zero ve k primary c = absurd (omega (arith, c.marked))
  gpt_repair-Copies m zero ve k secondary c = absurd (omega (arith, c.marked))
  gpt_repair-Copies m (suc zero) ve k primary c =
      let some_bits : (ve == 0) ≡ false = ground (arith, c.some_entries) in
      let h2' = repaired_second h1 h2 gpt_drive_sectors in
      let copy =
        repaired_second-IsCopy streaming_drive_sectors gpt_drive_sectors flags false h1 h2
          (c.good primary refl) in
      rw some_bits (
        finish_repair-Copies sector_bytes streaming_drive_sectors gpt_drive_sectors flags h1 h2' b1
          b2 _ 3 ve k
          (record {
            parameters = c.parameters;
            good1 = c.good primary refl;
            good2 = copy.good;
            same = header_fields_same_lem h1 h2' copy.fields copy.crc;
            marked = c.passing;
          })
          c.some_entries c.few_entries)
  gpt_repair-Copies m (suc zero) ve k secondary c = absurd (omega (arith, c.marked))
  gpt_repair-Copies m (suc (suc zero)) ve k primary c = absurd (omega (arith, c.marked))
  gpt_repair-Copies m (suc (suc zero)) ve k secondary c =
      let some_bits : (ve == 0) ≡ false = ground (arith, c.some_entries) in
      let h1' = repaired_first h1 h2 streaming_drive_sectors in
      let copy =
        repaired_first-IsCopy streaming_drive_sectors gpt_drive_sectors flags true h1 h2
          (c.good secondary refl) in
      let back : SameFields h1' h2 = λ o shared. sym (copy.fields o shared) in
      rw some_bits (
        finish_repair-Copies sector_bytes streaming_drive_sectors gpt_drive_sectors flags h1' h2 b1
          b2 _ 3 ve k
          (record {
            parameters = c.parameters;
            good1 = copy.good;
            good2 = c.good secondary refl;
            same = header_fields_same_lem h1' h2 back (sym copy.crc);
            marked =
                marked_with h2 h1' b1 b2 ve (SameFields-SameTable h2 h1' copy.fields) copy.crc
                  c.passing;
          })
          c.some_entries c.few_entries)
  gpt_repair-Copies m (suc (suc (suc zero))) ve k side c =
      let some_bits : (ve == 0) ≡ false = ground (arith, c.some_entries) in
      rw some_bits (
        finish_repair-Copies sector_bytes streaming_drive_sectors gpt_drive_sectors flags h1 h2 b1
          b2 m 3 ve k
          (record {
            parameters = c.parameters;
            good1 = c.good primary refl;
            good2 = c.good secondary refl;
            same = c.same refl;
            marked = with_primary side c;
          })
          c.some_entries c.few_entries)
  gpt_repair-Copies m (suc (suc (suc (suc vh)))) ve k side c = absurd (omega (arith, c.few_headers))

  abbrev pub all_tables : GptData
  all_tables =
      tables sector_bytes streaming_drive_sectors gpt_drive_sectors flags (some h1) (some h2)
        (some b1) (some b2)

  pub checked :
      (gpt_sanity_check all_tables).retval ≡ gpt_success
      → (side : Side) → Sane all_tables (gpt_sanity_check all_tables) side
      → Checked
          (gpt_sanity_check all_tables).valid_headers
          (gpt_sanity_check all_tables).valid_entries
          side
  checked ok primary sane =
      let (parameters, same, headers, entries) = gpt_sanity_check-Found all_tables ok in
      record {
        parameters = parameters;
        marked = sane.marked;
        good = elim [ primary ↦ sane.good primary | secondary ↦ sane.good secondary ];
        same = same;
        few_headers = headers;
        passing = elim [ primary ↦ sane.tables primary | secondary ↦ sane.tables secondary ];
        some_entries = ground (arith, sane.some_table);
        few_entries = entries;
      }
  checked ok secondary sane =
      let (parameters, same, headers, entries) = gpt_sanity_check-Found all_tables ok in
      record {
        parameters = parameters;
        marked = sane.marked;
        good = elim [ primary ↦ sane.good primary | secondary ↦ sane.good secondary ];
        same = same;
        few_headers = headers;
        passing = elim [ primary ↦ sane.tables primary | secondary ↦ sane.tables secondary ];
        some_entries = ground (arith, sane.some_table);
        few_entries = entries;
      }

  -- With the four buffers there, GptInit succeeds wherever GptSanityCheck does, and then both copies
  -- of headers and entries are good: GptSanityCheck finds nothing more to repair.
  pub gpt_init_tables-IsIntact :
      (gpt_sanity_check all_tables).retval ≡ gpt_success
      → (g' : GptState) × (gpt_init_tables all_tables ≡ some (gpt_success, g')) × IsIntact g'.tables
  unfolding gpt_init_tables
  gpt_init_tables-IsIntact ok =
      let (side, sane) = gpt_sanity_check-Sane all_tables ok in
      let found = gpt_sanity_check all_tables in
      let (g', e, copies) =
        gpt_repair-Copies 0 found.valid_headers found.valid_entries gpt_init side
          (checked ok side sane) in
      (g', rw ok (rw e refl), Copies-IsIntact g'.tables copies)

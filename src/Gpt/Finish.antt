-- ===== src/Gpt/Finish.antt =====
-- The repair of the entries: it leaves both copies good.
use futility.Prelude.{ℕ, zero, suc, ◌^◌, ◌≤◌, ◌<◌, leb, true, false, ◌≡◌, refl, arith}
use futility.Prelude.{some, Option, ==_iff}
use futility.Prelude.Memory.{Bytes}
use futility.Prelude.Copy.{copy}
use futility.Gpt.Check.{check_header, check_parameters, gpt_success}
use futility.Gpt.Sanity.{GptData, both_same, entries_good}
use futility.Gpt.Sane.{Side, primary, secondary, bit}
use futility.Gpt.Kernel.{KernelState}
use futility.Gpt.Repair.{GptState, finish_repair, repair_entries, entries_size}
use futility.Gpt.Intact.{Copies}
use futility.Gpt.Moved.{check_header-TableBounds, check_entries-copy}

abbrev pub table_of : Side → Option Bytes → Option Bytes → Option Bytes
table_of primary e1 e2 = e1
table_of secondary e1 e2 = e2

-- The numbers of GptData, and the buffers apart.
module _ (sector_bytes streaming_drive_sectors gpt_drive_sectors flags : ℕ) where
  abbrev pub tables : Option Bytes → Option Bytes → Option Bytes → Option Bytes → GptData
  tables p1 p2 e1 e2 = record {
    primary_header = p1;
    secondary_header = p2;
    primary_entries = e1;
    secondary_entries = e2;
    sector_bytes = sector_bytes;
    streaming_drive_sectors = streaming_drive_sectors;
    gpt_drive_sectors = gpt_drive_sectors;
    flags = flags;
  }

  -- The headers are good, and the marked tables pass CheckEntries with the primary one.
  pub record Headers (p1 p2 e1 e2 : Option Bytes) (valid_entries : ℕ) : Type 0 where
    pub parameters :
        check_parameters sector_bytes streaming_drive_sectors gpt_drive_sectors flags ≡ gpt_success
    pub good1 : check_header p1 false streaming_drive_sectors gpt_drive_sectors flags ≡ true
    pub good2 : check_header p2 true streaming_drive_sectors gpt_drive_sectors flags ≡ true
    pub same : both_same p1 p2 ≡ true
    pub marked : (s : Side) → bit s valid_entries ≡ 1 → entries_good p1 (table_of s e1 e2) ≡ true

  copies :
      (p1 p2 e1 e2 f1 f2 : Option Bytes) (valid_entries : ℕ)
      → Headers p1 p2 f1 f2 valid_entries
      → entries_good p1 e1 ≡ true
      → entries_good p1 e2 ≡ true
      → Copies (tables p1 p2 e1 e2)
  copies p1 p2 e1 e2 f1 f2 valid_entries h t1 t2 = record {
    parameters = h.parameters;
    good1 = h.good1;
    good2 = h.good2;
    same = h.same;
    entries1 = t1;
    entries2 = t2;
  }

  copied_table :
      (h b old : Bytes)
      → check_header (some h) false streaming_drive_sectors gpt_drive_sectors flags ≡ true
      → entries_good (some h) (some b) ≡ true
      → entries_good (some h) (some (copy old 0 b 0 (entries_size h))) ≡ true
  copied_table h b old good table = (==_iff _ _).1 (
      check_entries-copy b old h
        (check_header-TableBounds h false streaming_drive_sectors gpt_drive_sectors flags good)
        ((==_iff _ _).0 table))

  size_fits :
      (h : Bytes)
      → check_header (some h) false streaming_drive_sectors gpt_drive_sectors flags ≡ true
      → leb (2 ^ 31) (entries_size h) ≡ false
  size_fits h good =
      let bounds =
        check_header-TableBounds h false streaming_drive_sectors gpt_drive_sectors flags good in
      rw bounds.entry_size (ground (arith, bounds.number))

  -- With buffers that are not NULL, the repair ends.
  module _ (h1 h2 b1 b2 : Bytes) where
    abbrev pub Repaired : Option GptState → Type 0
    Repaired r = (g' : GptState) × (r ≡ some g') × Copies g'.tables

    pub finish_repair-Copies :
        (modified valid_headers valid_entries : ℕ) (kernel : KernelState)
        → Headers (some h1) (some h2) (some b1) (some b2) valid_entries
        → 0 < valid_entries
        → valid_entries ≤ 3
        → Repaired (
            finish_repair (record {
              tables = tables (some h1) (some h2) (some b1) (some b2);
              modified = modified;
              kernel = kernel;
              valid_headers = valid_headers;
              valid_entries = valid_entries;
            }))
    unfolding repair_entries
    finish_repair-Copies m vh zero k h pos small = absurd (omega arith)
    finish_repair-Copies m vh (suc zero) k h pos small =
        let t1 = h.marked primary refl in
        rw (size_fits h1 h.good1) (
          _,
          refl,
          copies (some h1) (some h2) (some b1) (some (copy b2 0 b1 0 (entries_size h1))) (some b1)
              (some b2) 1 h t1 (copied_table h1 b1 b2 h.good1 t1),
        )
    finish_repair-Copies m vh (suc (suc zero)) k h pos small =
        let t2 = h.marked secondary refl in
        rw (size_fits h1 h.good1) (
          _,
          refl,
          copies (some h1) (some h2) (some (copy b1 0 b2 0 (entries_size h1))) (some b2) (some b1)
              (some b2) 2 h (copied_table h1 b2 b1 h.good1 t2) t2,
        )
    finish_repair-Copies m vh (suc (suc (suc zero))) k h pos small = (
      _,
      refl,
      copies (some h1) (some h2) (some b1) (some b2) (some b1) (some b2) 3 h (h.marked primary refl)
          (h.marked secondary refl),
    )
    finish_repair-Copies m vh (suc (suc (suc (suc ve)))) k h pos small = absurd (omega arith)

-- ===== src/Gpt/Keeps.antt =====
-- Updates of kernel entries keep both copies of the table good.
use futility.Prelude.{ℕ, ◌≡◌, refl, ap, some, none, Option, ==_iff}
use futility.Prelude.{Bool, true, false, not, option_some, if_cases, option_cases}
use mathlib.Core.Path.{subst}
use futility.Prelude.Memory.{Bytes}
use futility.Gpt.Entry.{is_kernel_entry}
use futility.Gpt.Check.{check_header, check_entries, gpt_success}
use futility.Gpt.Sanity.{GptData, SanityResult, entries_good}
use futility.Gpt.Sane.{Side, Sane, primary, secondary, gpt_sanity_check-Sane}
use futility.Gpt.Repair.{GptState}
use futility.Gpt.Update.{
  gpt_error_invalid_update_type, UpdateType, update_entry, update_type_of, store_entries,
}
use futility.Gpt.Update.{gpt_update_kernel_with_entry, gpt_update_kernel_entry}
use futility.Gpt.Updated.{update_entry-Outcome, OnlyAttributes}
use futility.Gpt.Intact.{IsIntact, Copies-IsIntact, intact}
use futility.Gpt.Finish.{tables}
use futility.Gpt.Initialize.{Checked, checked, with_primary}
use futility.Gpt.Modified.{gpt_modified-Copies}

-- An intact table has its four buffers.
intact-Sane : (gpt : GptData) → IsIntact gpt → (side : Side) × Sane gpt intact side
intact-Sane gpt e =
    subst (λ (r : SanityResult). (side : Side) × Sane gpt r side) e
      (gpt_sanity_check-Sane gpt (ap SanityResult.retval e))

some_header :
    (h : Option Bytes) (is_secondary : Bool) (streaming_drive_sectors gpt_drive_sectors flags : ℕ)
    → check_header h is_secondary streaming_drive_sectors gpt_drive_sectors flags ≡ true
    → (b : Bytes) × (h ≡ some b)
unfolding check_header
some_header none is_secondary sd gd fl e = cc
some_header (some b) is_secondary sd gd fl e = (b, refl)

some_table : (h e : Option Bytes) → entries_good h e ≡ true → (b : Bytes) × (e ≡ some b)
unfolding check_entries
some_table none e good = cc
some_table (some h) none good = cc
some_table (some h) (some b) good = (b, refl)

-- The buffers of an intact table, apart from its numbers.
record Buffers (gpt : GptData) : Type 0 where
  h1 : Bytes
  h2 : Bytes
  b1 : Bytes
  b2 : Bytes
  there :
      gpt
      ≡ tables gpt.sector_bytes gpt.streaming_drive_sectors gpt.gpt_drive_sectors gpt.flags
          (some h1)
          (some h2)
          (some b1)
          (some b2)

IsIntact-Buffers : (gpt : GptData) → IsIntact gpt → Buffers gpt
IsIntact-Buffers gpt e =
    let (side, sane) = intact-Sane gpt e in
    let (h1, p1) =
      some_header _ false gpt.streaming_drive_sectors gpt.gpt_drive_sectors gpt.flags
        (sane.good primary refl) in
    let (h2, p2) =
      some_header _ true gpt.streaming_drive_sectors gpt.gpt_drive_sectors gpt.flags
        (sane.good secondary refl) in
    let (b1, e1) = some_table _ gpt.primary_entries (sane.tables primary refl) in
    let (b2, e2) = some_table _ gpt.secondary_entries (sane.tables secondary refl) in
    record {
      h1 = h1;
      h2 = h2;
      b1 = b1;
      b2 = b2;
      there = λ j. record {
        primary_header = p1 j;
        secondary_header = p2 j;
        primary_entries = e1 j;
        secondary_entries = e2 j;
        sector_bytes = gpt.sector_bytes;
        streaming_drive_sectors = gpt.streaming_drive_sectors;
        gpt_drive_sectors = gpt.gpt_drive_sectors;
        flags = gpt.flags;
      };
    }

-- What is known of an intact table with these buffers.
intact-Checked :
    (sector_bytes streaming_drive_sectors gpt_drive_sectors flags : ℕ) (h1 h2 b1 b2 : Bytes)
    → IsIntact (
        tables sector_bytes streaming_drive_sectors gpt_drive_sectors flags
          (some h1)
          (some h2)
          (some b1)
          (some b2))
    → (side : Side) × Checked sector_bytes streaming_drive_sectors gpt_drive_sectors flags h1 h2 b1
        b2 3 3 side
intact-Checked s sd gd fl h1 h2 b1 b2 e =
    let ok = ap SanityResult.retval e in
    let (side, sane) =
      gpt_sanity_check-Sane (tables s sd gd fl (some h1) (some h2) (some b1) (some b2)) ok in
    (
      side,
      subst
          (λ (r : SanityResult).
            Checked s sd gd fl h1 h2 b1 b2 r.valid_headers r.valid_entries side)
          e (checked s sd gd fl h1 h2 b1 b2 ok side sane),
    )

-- A result that is there, with both copies good.
abbrev pub KeepsIntact : Option (ℕ × GptState) → Type 0
KeepsIntact r = (code : ℕ) × (g' : GptState) × (r ≡ some (code, g')) × IsIntact g'.tables

module _ (g : GptState) (h1 h2 b1 b2 : Bytes)
    (there : g.tables
      ≡ tables g.tables.sector_bytes g.tables.streaming_drive_sectors g.tables.gpt_drive_sectors
          g.tables.flags
          (some h1)
          (some h2)
          (some b1)
          (some b2))
    (whole : IsIntact g.tables) (i : ℕ) where
  stored :
      (c : Bytes) (modified : Bool)
      → OnlyAttributes i b1 c
      → KeepsIntact (store_entries g (c, modified))
  stored c false only = (gpt_success, g, refl, whole)
  stored c true only =
      let (side, found) = intact-Checked _ _ _ _ h1 h2 b1 b2 (subst IsIntact there whole) in
      let (g', e, copies) =
        gpt_modified-Copies _ _ _ _ h1 h2 b1 c b2 i
          (record g { tables = record g.tables { primary_entries = some c } })
          (λ j. record (there j) { primary_entries = some c }) found.parameters
          (found.good primary refl)
          ((==_iff _ _).0 (with_primary _ _ _ _ h1 h2 b1 b2 side found primary refl)) only in
      (
        gpt_success,
        g',
        option_some none (λ x. some (gpt_success, x)) e,
        Copies-IsIntact g'.tables copies,
      )

  -- The case of a kernel entry, by the type of the update.
  by_type :
      (t : Option UpdateType)
      → KeepsIntact (elim t [
        | none ↦ some (gpt_error_invalid_update_type, g)
        | some t ↦ store_entries g (update_entry t b1 i)
      ])
  by_type none = (gpt_error_invalid_update_type, g, refl, whole)
  by_type (some t) =
      stored (update_entry t b1 i).0 (update_entry t b1 i).1 (update_entry-Outcome t b1 i).1

  entry_updated : (update_type : ℕ) → KeepsIntact (gpt_update_kernel_with_entry g i update_type)
  unfolding gpt_update_kernel_with_entry
  entry_updated update_type =
      let e : g.tables.primary_entries ≡ some b1 = ap GptData.primary_entries there in
      let by : Option UpdateType → Option (ℕ × GptState) = elim [
        | none ↦ some (gpt_error_invalid_update_type, g)
        | some t ↦ store_entries g (update_entry t b1 i)
      ] in
      rw (e, gpt_update_kernel_with_entry)
        (if_cases KeepsIntact (not (is_kernel_entry b1 i))
          {x = some (gpt_error_invalid_update_type, g)} {y = by (update_type_of update_type)}
          (λ no_kernel. (gpt_error_invalid_update_type, g, refl, whole))
          (λ kernel. by_type (update_type_of update_type)))

-- An update of any type, at any entry, of a table whose two copies are good, ends without an error
-- of memory and leaves two good copies: GptSanityCheck marks all four parts as valid.
pub gpt_update_kernel_with_entry-IsIntact :
    (g : GptState) (i update_type : ℕ)
    → IsIntact g.tables
    → KeepsIntact (gpt_update_kernel_with_entry g i update_type)
gpt_update_kernel_with_entry-IsIntact g i update_type whole =
    let buffers = IsIntact-Buffers g.tables whole in
    entry_updated g buffers.h1 buffers.h2 buffers.b1 buffers.b2 buffers.there whole i update_type

pub gpt_update_kernel_entry-IsIntact :
    (g : GptState) (update_type : ℕ)
    → IsIntact g.tables
    → KeepsIntact (gpt_update_kernel_entry g update_type)
unfolding gpt_update_kernel_entry
gpt_update_kernel_entry-IsIntact g update_type whole =
    option_cases KeepsIntact g.kernel.current_kernel {x = some (gpt_error_invalid_update_type, g)}
      {f = λ i. gpt_update_kernel_with_entry g i update_type}
      (λ no_kernel. (gpt_error_invalid_update_type, g, refl, whole))
      (λ i e. gpt_update_kernel_with_entry-IsIntact g i update_type whole)

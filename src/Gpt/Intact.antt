-- ===== src/Gpt/Intact.antt =====
-- Partition tables in which both copies are good: what GptSanityCheck says of them.
use futility.Prelude.{ℕ, zero, suc, ◌≤◌, ◌==◌, ◌/=◌}
use futility.Prelude.{Bool, ◌&&◌, not, true, false, ◌≡◌, ◌≢◌, refl, arith}
use futility.Prelude.{Option, if_cases, if◌then◌else◌}
use futility.Prelude.Memory.{Bytes}
use futility.Gpt.Check.{check_parameters, gpt_success}
use futility.Gpt.Check.{gpt_error_invalid_headers}
use futility.Gpt.Sanity.{GptData, SanityResult, gpt_sanity_check, check_tables, conclude, mask}
use futility.Gpt.Sanity.{entries_good, header_good, both_same}

-- Both copies are marked as valid.
abbrev pub intact : SanityResult
intact = record { retval = gpt_success; valid_headers = 3; valid_entries = 3 }

abbrev pub IsIntact : GptData → Type 0
IsIntact tables = gpt_sanity_check tables ≡ intact

abbrev pub parameters_of : GptData → ℕ
parameters_of gpt =
    check_parameters gpt.sector_bytes gpt.streaming_drive_sectors gpt.gpt_drive_sectors gpt.flags

-- What makes it so: the four buffers, and what is checked of them.
pub record Copies (gpt : GptData) : Type 0 where
  pub parameters : parameters_of gpt ≡ gpt_success
  pub good1 : header_good gpt gpt.primary_header false ≡ true
  pub good2 : header_good gpt gpt.secondary_header true ≡ true
  pub same : both_same gpt.primary_header gpt.secondary_header ≡ true
  pub entries1 : entries_good gpt.primary_header gpt.primary_entries ≡ true
  pub entries2 : entries_good gpt.primary_header gpt.secondary_entries ≡ true

pub Copies-IsIntact : (gpt : GptData) → Copies gpt → IsIntact gpt
unfolding gpt_sanity_check check_tables
Copies-IsIntact gpt c = rw (c.parameters, c.good1, c.good2, c.entries1, c.entries2, c.same) refl

-- Where the result is success: the headers are the same if both end up marked, and the masks have
-- two bits.
abbrev Marks : Bool → SanityResult → Type 0
Marks same r =
    r.retval ≡ gpt_success
    → (r.valid_headers ≡ 3 → same ≡ true) × (r.valid_headers ≤ 3) × (r.valid_entries ≤ 3)

conclude-Marks :
    (headers entries : ℕ) (same : Bool)
    → headers ≤ 3
    → entries ≤ 3
    → Marks same (conclude headers entries same)
conclude-Marks headers entries same h e =
    if_cases (Marks same) (entries == 0) (λ z r. cc)
      (λ n r. (λ three. ground arith, ground arith, e))

mask-le : (x y : Bool) → mask x y ≤ 3
mask-le x y = ground arith

rounds-Marks :
    (same b : Bool) (headers first second : ℕ)
    → headers ≤ 3
    → first ≤ 3
    → second ≤ 3
    → Marks same (
        if b
        then conclude (if second == 0 then 3 else 2) second same
        else conclude headers first same)
rounds-Marks same true headers first second h f s =
    conclude-Marks (if second == 0 then 3 else 2) second same (ground arith) s
rounds-Marks same false headers first second h f s = conclude-Marks headers first same h f

abbrev table_mask : GptData → Option Bytes → ℕ
table_mask gpt h = mask (entries_good h gpt.primary_entries) (entries_good h gpt.secondary_entries)

check_tables-Marks :
    (gpt : GptData) (good1 good2 : Bool)
    → Marks (both_same gpt.primary_header gpt.secondary_header) (check_tables gpt good1 good2)
unfolding check_tables
check_tables-Marks gpt good1 good2 =
    let first = table_mask gpt (if good1 then gpt.primary_header else gpt.secondary_header) in
    rounds-Marks (both_same gpt.primary_header gpt.secondary_header)
      (good1 && good2 && (first == 0)) (mask good1 good2) first
      (table_mask gpt gpt.secondary_header) (mask-le good1 good2) (mask-le _ _) (mask-le _ _)

-- What GptSanityCheck has found where it succeeds: the headers are the same if both are marked.
abbrev Found : GptData → SanityResult → Type 0
Found gpt r =
    r.retval ≡ gpt_success
    → (parameters_of gpt ≡ gpt_success)
      × (r.valid_headers ≡ 3 → both_same gpt.primary_header gpt.secondary_header ≡ true)
      × (r.valid_headers ≤ 3)
      × (r.valid_entries ≤ 3)

found :
    (gpt : GptData) (parameters : ℕ) (bad : Bool) (bad_headers r : SanityResult)
    → parameters_of gpt ≡ parameters
    → bad_headers.retval ≢ gpt_success
    → Marks (both_same gpt.primary_header gpt.secondary_header) r
    → Found gpt (
        if parameters /= gpt_success
        then record { retval = parameters; valid_headers = 0; valid_entries = 0 }
        else if bad
        then bad_headers
        else r)
found gpt zero true bad_headers r e ne m ok = absurd (ne ok)
found gpt zero false bad_headers r e ne m ok =
    let (same, headers, entries) = m ok in (e, same, headers, entries)
found gpt (suc n) bad bad_headers r e ne m ok = absurd (ground arith)

pub gpt_sanity_check-Found : (gpt : GptData) → Found gpt (gpt_sanity_check gpt)
unfolding gpt_sanity_check
gpt_sanity_check-Found gpt =
    let good1 = header_good gpt gpt.primary_header false in
    let good2 = header_good gpt gpt.secondary_header true in
    let bad_headers : SanityResult = record {
      retval = gpt_error_invalid_headers;
      valid_headers = 0;
      valid_entries = 0;
    } in
    found gpt (parameters_of gpt) (not good1 && not good2) bad_headers
      (check_tables gpt good1 good2) refl (omega arith) (check_tables-Marks gpt good1 good2)

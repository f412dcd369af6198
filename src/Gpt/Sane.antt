-- ===== src/Gpt/Sane.antt =====
-- What GptSanityCheck has found out where it succeeds.
use futility.Prelude.{
  ℕ, ◌/◌, ◌%◌, ◌==◌, ◌/=◌, ◌≢◌, ◌≡◌, ◌≤◌, ◌∙◌, ◌⊎◌, inl, inr, refl, arith, Bool, true, false,
  Option,
}
use futility.Prelude.{Bool-cases, if◌then◌else◌, ◌&&◌, not}
use futility.Prelude.Memory.{Bytes}
use futility.Gpt.Check.{gpt_error_invalid_headers, check_parameters, gpt_success}
use futility.Gpt.Sanity.{GptData, SanityResult, gpt_sanity_check, check_tables, conclude, mask}
use futility.Gpt.Sanity.{entries_good, header_good, both_same}

-- The primary or the secondary copy.
pub data Side : Type 0 where
  primary secondary : Side

abbrev pub header_of : GptData → Side → Option Bytes
header_of gpt primary = gpt.primary_header
header_of gpt secondary = gpt.secondary_header

abbrev pub entries_of : GptData → Side → Option Bytes
entries_of gpt primary = gpt.primary_entries
entries_of gpt secondary = gpt.secondary_entries

abbrev pub is_secondary : Side → Bool
is_secondary primary = false
is_secondary secondary = true

abbrev pub bit : Side → ℕ → ℕ
bit primary m = m % 2
bit secondary m = m / 2 % 2

-- The header on one side is good, and every table that is marked as valid passes CheckEntries with
-- that header. Every header that is marked as valid is good, and a table is marked.
pub record Sane (gpt : GptData) (r : SanityResult) (side : Side) : Type 0 where
  pub marked : bit side r.valid_headers ≡ 1
  pub good :
      (s : Side)
      → bit s r.valid_headers ≡ 1
      → header_good gpt (header_of gpt s) (is_secondary s) ≡ true
  pub tables :
      (s : Side)
      → bit s r.valid_entries ≡ 1
      → entries_good (header_of gpt side) (entries_of gpt s) ≡ true
  pub some_table : (bit primary r.valid_entries ≡ 1) ⊎ (bit secondary r.valid_entries ≡ 1)

-- What goes on record as the masks are made.
masked :
    (x y : Bool) (s : Side) → bit s (mask x y) ≡ 1 → elim s [ primary ↦ x | secondary ↦ y ] ≡ true
masked x y primary e = ground arith
masked x y secondary e = ground arith

mask-le : (x y : Bool) → mask x y ≤ 3
mask-le x y = ground arith

tables_masked :
    (gpt : GptData) (h : Option Bytes) (s : Side)
    → bit s (mask (entries_good h gpt.primary_entries) (entries_good h gpt.secondary_entries)) ≡ 1
    → entries_good h (entries_of gpt s) ≡ true
tables_masked gpt h primary e = masked _ _ primary e
tables_masked gpt h secondary e = masked _ _ secondary e

headers_masked :
    (gpt : GptData) (good1 good2 : Bool)
    → header_good gpt gpt.primary_header false ≡ good1
    → header_good gpt gpt.secondary_header true ≡ good2
    → (s : Side) → bit s (mask good1 good2) ≡ 1
    → header_good gpt (header_of gpt s) (is_secondary s) ≡ true
headers_masked gpt good1 good2 e1 e2 primary e = e1 ∙ masked good1 good2 primary e
headers_masked gpt good1 good2 e1 e2 secondary e = e2 ∙ masked good1 good2 secondary e

some_bit : (m : ℕ) → m ≤ 3 → (m == 0) ≡ false → (bit primary m ≡ 1) ⊎ (bit secondary m ≡ 1)
some_bit m le ne = ground arith

module _ (gpt : GptData) (headers entries : ℕ) (same : Bool) (side : Side)
    (marked : bit side headers ≡ 1)
    (goods : (s : Side)
      → bit s headers ≡ 1
      → header_good gpt (header_of gpt s) (is_secondary s) ≡ true)
    (tables : (s : Side)
      → bit s entries ≡ 1
      → entries_good (header_of gpt side) (entries_of gpt s) ≡ true)
    (small : entries ≤ 3) where
  still_marked :
      (headers ≡ 3 → bit side 1 ≡ 1)
      → bit side (if (headers == 3) && not same then 1 else headers) ≡ 1
  still_marked first = elim (Bool-cases ((headers == 3) && not same)) [
    | inl e ↦ rw e (first (ground arith))
    | inr e ↦ rw e marked
  ]

  still_good :
      (s : Side)
      → bit s (if (headers == 3) && not same then 1 else headers) ≡ 1
      → header_good gpt (header_of gpt s) (is_secondary s) ≡ true
  still_good primary e = goods primary (ground arith)
  still_good secondary e = goods secondary (ground arith)

  conclude-Sane :
      (headers ≡ 3 → bit side 1 ≡ 1)
      → (conclude headers entries same).retval ≡ gpt_success
      → Sane gpt (conclude headers entries same) side
  conclude-Sane first ok = elim (Bool-cases (entries == 0)) [
    | inl e ↦ absurd (failed e ok)
    | inr e ↦
        rw (e, conclude)
          (record {
            marked = still_marked first;
            good = still_good;
            tables = tables;
            some_table = some_bit entries small e;
          })
  ]
    where
      failed : (entries == 0) ≡ true → ¬ ((conclude headers entries same).retval ≡ gpt_success)
      failed e ok = ground arith

-- Where the result is success.
abbrev SaneIf : GptData → SanityResult → Type 0
SaneIf gpt r = r.retval ≡ gpt_success → (side : Side) × Sane gpt r side

by_cases :
    (P : SanityResult → Type 0) (b : Bool) (x y : SanityResult)
    → (b ≡ true → P x)
    → (b ≡ false → P y)
    → P (if b then x else y)
by_cases P true x y p q = p refl
by_cases P false x y p q = q refl

both_bits : (s : Side) → bit s 3 ≡ 1
both_bits primary = refl
both_bits secondary = refl

concluded :
    (headers entries : ℕ) (same : Bool)
    → (conclude headers entries same).retval ≡ gpt_success
    → (entries == 0) ≡ false
concluded headers entries same ok = elim (Bool-cases (entries == 0)) [
  | inl e ↦ absurd (ground arith)
  | inr e ↦ e
]

-- Both headers are good: the first round's tables, or the second's.
two_headers :
    (gpt : GptData)
    → header_good gpt gpt.primary_header false ≡ true
    → header_good gpt gpt.secondary_header true ≡ true
    → (first second : ℕ) (same : Bool)
    → ((s : Side) → bit s first ≡ 1 → entries_good gpt.primary_header (entries_of gpt s) ≡ true)
    → ((s : Side) → bit s second ≡ 1 → entries_good gpt.secondary_header (entries_of gpt s) ≡ true)
    → first ≤ 3
    → second ≤ 3
    → (let r =
          if first == 0
          then conclude (if second == 0 then 3 else 2) second same
          else conclude 3 first same in
        SaneIf gpt r)
two_headers gpt e1 e2 first second same t1 t2 l1 l2 =
    by_cases (SaneIf gpt) (first == 0) (conclude (if second == 0 then 3 else 2) second same)
      (conclude 3 first same)
      (λ _ ok.
        let nonzero : (second == 0) ≡ false = concluded _ second same ok in
        (
          secondary,
          conclude-Sane gpt (if second == 0 then 3 else 2) second same secondary (rw nonzero refl)
              (λ s m. headers_masked gpt true true e1 e2 s (both_bits s)) t2 l2
              (λ h. absurd (ground arith)) ok,
        ))
      (λ _ ok. (
        primary,
        conclude-Sane gpt 3 first same primary refl (headers_masked gpt true true e1 e2) t1 l1
            (λ h. refl) ok,
      ))

check_tables-Sane :
    (gpt : GptData) (good1 good2 : Bool)
    → header_good gpt gpt.primary_header false ≡ good1
    → header_good gpt gpt.secondary_header true ≡ good2
    → (good1 ≡ true) ⊎ (good2 ≡ true)
    → (check_tables gpt good1 good2).retval ≡ gpt_success
    → (side : Side) × Sane gpt (check_tables gpt good1 good2) side
unfolding check_tables
check_tables-Sane gpt false false e1 e2 (inl c) ok = cc
check_tables-Sane gpt false false e1 e2 (inr c) ok = cc
check_tables-Sane gpt true false e1 e2 c ok = (
  primary,
  conclude-Sane gpt 1 _ (both_same gpt.primary_header gpt.secondary_header) primary refl
      (headers_masked gpt true false e1 e2) (tables_masked gpt gpt.primary_header) (mask-le _ _)
      (λ h. refl) ok,
)
check_tables-Sane gpt false true e1 e2 c ok = (
  secondary,
  conclude-Sane gpt 2 _ (both_same gpt.primary_header gpt.secondary_header) secondary refl
      (headers_masked gpt false true e1 e2) (tables_masked gpt gpt.secondary_header) (mask-le _ _)
      (λ h. absurd (omega arith)) ok,
)
check_tables-Sane gpt true true e1 e2 c ok =
    let first =
      mask (entries_good gpt.primary_header gpt.primary_entries)
        (entries_good gpt.primary_header gpt.secondary_entries) in
    let second =
      mask (entries_good gpt.secondary_header gpt.primary_entries)
        (entries_good gpt.secondary_header gpt.secondary_entries) in
    two_headers gpt e1 e2 first second (both_same gpt.primary_header gpt.secondary_header)
      (tables_masked gpt gpt.primary_header) (tables_masked gpt gpt.secondary_header) (mask-le _ _)
      (mask-le _ _) ok

refused : (retval : ℕ) → (retval /= gpt_success) ≡ true → retval ≢ gpt_success
refused retval e = ground arith

one_good : (a b : Bool) → (not a && not b) ≡ false → (a ≡ true) ⊎ (b ≡ true)
one_good true b e = inl refl
one_good false true e = inr refl
one_good false false e = cc

-- If GptSanityCheck succeeds, one of the headers is good, is marked as
-- valid, and all the tables that are marked as valid, at least one, pass CheckEntries with it. A
-- header is marked as valid only if it passes CheckHeader.
pub gpt_sanity_check-Sane :
    (gpt : GptData)
    → (gpt_sanity_check gpt).retval ≡ gpt_success
    → (side : Side) × Sane gpt (gpt_sanity_check gpt) side
unfolding gpt_sanity_check
gpt_sanity_check-Sane gpt =
    let good1 = header_good gpt gpt.primary_header false in
    let good2 = header_good gpt gpt.secondary_header true in
    let parameters =
      check_parameters gpt.sector_bytes gpt.streaming_drive_sectors gpt.gpt_drive_sectors
        gpt.flags in
    let bad_parameters : SanityResult = record {
      retval = parameters;
      valid_headers = 0;
      valid_entries = 0;
    } in
    let bad_headers : SanityResult = record {
      retval = gpt_error_invalid_headers;
      valid_headers = 0;
      valid_entries = 0;
    } in
    let tables = check_tables gpt good1 good2 in
    by_cases (SaneIf gpt) (parameters /= gpt_success) bad_parameters
      (if not good1 && not good2 then bad_headers else tables)
      (λ e ok. absurd (refused parameters e ok))
      (λ _.
        by_cases (SaneIf gpt) (not good1 && not good2) bad_headers tables
          (λ e ok. absurd (omega (arith, ok)))
          (λ e. check_tables-Sane gpt good1 good2 refl refl (one_good good1 good2 e)))

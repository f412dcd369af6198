-- ===== src/Gpt/Modified.antt =====
-- GptModified, after a change of attributes, leaves two good copies of the table.
use futility.Prelude.{ℕ, ◌≤◌, ◌<◌, ◌⊎◌, inl, inr, true, false}
use futility.Prelude.{◌≡◌, refl, arith, sym, ap, ◌∙◌, some, ==_iff, compare_with}
use futility.Prelude.Memory.{le64_same, Bytes, le32_same, put32, put32_ne, le32-put32}
use futility.Gpt.Crc32.{crc32}
use futility.Gpt.Crc32.Bounds.{crc32-lt}
use futility.Gpt.Layout.{SameLayout}
use futility.Gpt.Check.{check_header, check_entries, gpt_success, entries_crc32, wrong_place}
use futility.Gpt.Check.{number_of_entries, check_parameters}
use futility.Gpt.Check.{header_crc, header_crc32}
use futility.Gpt.Sane.{primary, secondary}
use futility.Gpt.Repair.{GptState, gpt_modified, signed_header, with_crc, entries_size}
use futility.Gpt.Updated.{OnlyAttributes}
use futility.Gpt.Intact.{Copies}
use futility.Gpt.Repaired.{SameFields, check_header_same, with_crc_good}
use futility.Gpt.Moved.{check_entries_same, entries_size_same}
use futility.Gpt.Finish.{tables}
use futility.Gpt.Initialize.{gpt_repair-Copies, SameFields-SameTable}

-- Attributes are no part of what the checks read.
pub OnlyAttributes-SameLayout : (k i : ℕ) (b c : Bytes) → OnlyAttributes i b c → SameLayout k b c
OnlyAttributes-SameLayout k i b c only j o l lo hi = elim (compare_with i j) [
  | inl before ↦ sym (only o (inr (omega arith)))
  | inr (inl here) ↦ sym (only o (inl (omega arith)))
  | inr (inr behind) ↦ sym (only o (inl (omega arith)))
]

module _ (h b : Bytes) where
  abbrev counted : Bytes
  counted = put32 h 88 (crc32 b 0 (entries_size h))

  signed_ne : (o : ℕ) → (o < 16) ⊎ ((20 ≤ o) × (o < 88)) → signed_header h b o ≡ h o
  unfolding signed_header
  signed_ne o away =
      put32_ne counted 16 (header_crc counted) o (ground arith)
      ∙ put32_ne h 88 (crc32 b 0 (entries_size h)) o (ground arith)

  signed-SameFields : SameFields h (signed_header h b)
  signed-SameFields o shared = sym (signed_ne o (ground arith))

  signed-crc : header_crc (signed_header h b) ≡ header_crc32 (signed_header h b)
  unfolding signed_header
  signed-crc = with_crc_good counted

  signed-entries_crc32 : entries_crc32 (signed_header h b) ≡ crc32 b 0 (entries_size h)
  unfolding signed_header
  signed-entries_crc32 =
      le32_same (with_crc counted) counted 88
        (λ i l u. put32_ne counted 16 (header_crc counted) i (inr (omega arith)))
      ∙ le32-put32 h 88 (crc32 b 0 (entries_size h)) (crc32-lt b 0 (entries_size h))

  first_wrong :
      (gpt_drive_sectors : ℕ)
      → wrong_place false h gpt_drive_sectors
        ≡ wrong_place false (signed_header h b) gpt_drive_sectors
  first_wrong gpt_drive_sectors =
      let my =
        le64_same h (signed_header h b) 24
          (λ i l u. sym (signed_ne i (inr (omega arith, omega arith)))) in
      let entries =
        le64_same h (signed_header h b) 72
          (λ i l u. sym (signed_ne i (inr (omega arith, omega arith)))) in
      ground (arith, my, entries)

place_right :
    (h : Bytes) (streaming_drive_sectors gpt_drive_sectors flags : ℕ)
    → check_header (some h) false streaming_drive_sectors gpt_drive_sectors flags ≡ true
    → wrong_place false h gpt_drive_sectors ≡ false
unfolding check_header
place_right h streaming_drive_sectors gpt_drive_sectors flags ok = ground arith

signed-good :
    (h b : Bytes) (streaming_drive_sectors gpt_drive_sectors flags : ℕ)
    → check_header (some h) false streaming_drive_sectors gpt_drive_sectors flags ≡ true
    → check_header (some (signed_header h b)) false streaming_drive_sectors gpt_drive_sectors flags
      ≡ true
signed-good h b sd gd fl ok =
    check_header_same h (signed_header h b) (signed-SameFields h b) false false sd gd fl ok
      (signed-crc h b) (sym (first_wrong h b gd) ∙ place_right h sd gd fl ok)

signed_entries :
    (i : ℕ) (h b c : Bytes)
    → OnlyAttributes i b c
    → check_entries (some b) h ≡ gpt_success
    → check_entries (some c) (signed_header h c) ≡ gpt_success
signed_entries i h b c only ok =
    let same = SameFields-SameTable h (signed_header h c) (signed-SameFields h c) in
    check_entries_same b c h (signed_header h c) same
      (OnlyAttributes-SameLayout (number_of_entries h) i b c only)
      (ap (λ (n : ℕ). crc32 c 0 n) (sym (entries_size_same h (signed_header h c) same))
        ∙ sym (signed-entries_crc32 h c))
      ok

-- The entries `b` that passed with the primary header are replaced by `c`, which differs from them
-- in the attributes of one entry only.
module _ (sector_bytes streaming_drive_sectors gpt_drive_sectors flags : ℕ) (h1 h2 b c b2 : Bytes)
    (i : ℕ) where
  pub gpt_modified-Copies :
      (g : GptState)
      → g.tables
        ≡ tables sector_bytes streaming_drive_sectors gpt_drive_sectors flags
            (some h1)
            (some h2)
            (some c)
            (some b2)
      → check_parameters sector_bytes streaming_drive_sectors gpt_drive_sectors flags ≡ gpt_success
      → check_header (some h1) false streaming_drive_sectors gpt_drive_sectors flags ≡ true
      → check_entries (some b) h1 ≡ gpt_success
      → OnlyAttributes i b c
      → (g' : GptState) × (gpt_modified g ≡ some g') × Copies g'.tables
  unfolding gpt_modified
  gpt_modified-Copies g e parameters good entries only = rw e (
      gpt_repair-Copies sector_bytes streaming_drive_sectors gpt_drive_sectors flags
        (signed_header h1 c) h2 c b2 _ 1 1 g.kernel primary
        (record {
          parameters = parameters;
          marked = refl;
          good = elim [
            | primary ↦ λ m. signed-good h1 c streaming_drive_sectors gpt_drive_sectors flags good
            | secondary ↦ λ m. absurd (omega (arith, m))
          ];
          same = λ three. absurd (omega arith);
          few_headers = omega arith;
          passing = elim [
            | primary ↦ λ m. (==_iff _ _).1 (signed_entries i h1 b c only entries)
            | secondary ↦ λ m. absurd (omega (arith, m))
          ];
          some_entries = omega arith;
          few_entries = omega arith;
        }))

-- ===== src/Gpt/Placed.antt =====
-- The headers that GptRepair and GptModified write: where they differ from the header that they are
-- made from, and that they pass CheckHeader.
use futility.Prelude.{ℕ, zero, suc, ◌+◌, ◌^◌, ◌≤◌, ◌<◌, ◌⊎◌, inl, inr, Bool}
use futility.Prelude.{true, false, ◌≡◌, refl, arith, sym, ◌∙◌, ==_iff, all_below}
use futility.Prelude.{some, sub64, u64}
use futility.Prelude.Memory.{le64_same, Bytes, le32_same, put32_ne}
use futility.Prelude.Copy.{copy, copy_start, put64, put64_ne, le64-put64}
use futility.Gpt.Check.{check_header, header_crc, header_crc32, calculate_entries_sectors}
use futility.Gpt.Check.{wrong_place, my_lba, entries_lba}
use futility.Gpt.Check.{entries_crc32}
use futility.Gpt.Sanity.{header_fields_same}
use futility.Gpt.Repair.{with_crc, placed, repaired_second, repaired_first}
use futility.Gpt.Repaired.{SameFields, with_crc_good, check_header_same, same_sectors}
use futility.Gpt.Repaired.{same_number, same_entry_size, same_first, same_last}

-- Where a header that is put in its place differs from the one before.
abbrev Elsewhere : ℕ → Type 0
Elsewhere o = (o < 16) ⊎ (((20 ≤ o) × (o < 24)) ⊎ (((40 ≤ o) × (o < 72)) ⊎ (80 ≤ o)))

module _ (h : Bytes) (my alternate entries : ℕ) where
  abbrev filled : Bytes
  filled = put64 (put64 (put64 h 24 my) 32 alternate) 72 entries

  placed_ne : (o : ℕ) → Elsewhere o → placed h my alternate entries o ≡ h o
  unfolding placed
  placed_ne o away =
      put32_ne filled 16 (header_crc filled) o (ground arith)
      ∙ put64_ne (put64 (put64 h 24 my) 32 alternate) 72 entries o (ground arith)
      ∙ put64_ne (put64 h 24 my) 32 alternate o (ground arith)
      ∙ put64_ne h 24 my o (ground arith)

  placed-crc :
      header_crc (placed h my alternate entries) ≡ header_crc32 (placed h my alternate entries)
  unfolding placed
  placed-crc = with_crc_good filled

  my_lba-placed : my < 2 ^ 64 → my_lba (placed h my alternate entries) ≡ my
  unfolding placed
  my_lba-placed small =
      le64_same (with_crc filled) (put64 h 24 my) 24 (λ i l u.
        put32_ne filled 16 (header_crc filled) i (inr (omega arith))
        ∙ put64_ne (put64 (put64 h 24 my) 32 alternate) 72 entries i (inl (omega arith))
        ∙ put64_ne (put64 h 24 my) 32 alternate i (inl (omega arith)))
      ∙ le64-put64 h 24 my small

  entries_lba-placed : entries < 2 ^ 64 → entries_lba (placed h my alternate entries) ≡ entries
  unfolding placed
  entries_lba-placed small =
      le64_same (with_crc filled) filled 72
        (λ i l u. put32_ne filled 16 (header_crc filled) i (inr (omega arith)))
      ∙ le64-put64 (put64 (put64 h 24 my) 32 alternate) 72 entries small

all_below-true : (n : ℕ) (p : ℕ → Bool) → ((i : ℕ) → i < n → p i ≡ true) → all_below n p ≡ true
unfolding all_below
all_below-true zero p h = refl
all_below-true (suc n) p h = rw (h n (omega arith)) (all_below-true n p (λ i l. h i (omega arith)))

-- HeaderFieldsSame of headers with the same fields.
pub header_fields_same_lem :
    (h g : Bytes)
    → SameFields h g
    → entries_crc32 h ≡ entries_crc32 g
    → header_fields_same h g ≡ true
unfolding header_fields_same
header_fields_same_lem h g same crc =
    let bytes = λ (i : ℕ) (l : i < 8). (==_iff (h i) (g i)).1 (same i (inl (omega arith))) in
    let guid = λ (i : ℕ) (l : i < 16).
      (==_iff (h (56 + i)) (g (56 + i))).1
        (same (56 + i) (inr (inr (inl (omega arith, omega arith))))) in
    let revision = le32_same h g 8 (λ i l u. same i (inl (omega arith))) in
    let length_same = le32_same h g 12 (λ i l u. same i (inl (omega arith))) in
    let reserved = le32_same h g 20 (λ i l u. same i (inr (inl (omega arith, omega arith)))) in
    ground (
      arith,
      all_below-true 8 _ bytes,
      all_below-true 16 _ guid,
      revision,
      length_same,
      reserved,
      same_number h g same,
      same_entry_size h g same,
      same_first h g same,
      same_last h g same,
      crc,
    )

-- A header that is put in its place, made of a copy of the structure of `h`.
module _ (h old : Bytes) (my alternate entries : ℕ) where
  copied : Bytes
  copied = placed (copy old 0 h 0 92) my alternate entries

  copied_same : (o : ℕ) → o < 92 → Elsewhere o → h o ≡ copied o
  unfolding copied
  copied_same o l away =
      sym (placed_ne (copy old 0 h 0 92) my alternate entries o away ∙ copy_start old h 92 o l)

  copied-SameFields : SameFields h copied
  copied-SameFields o shared = copied_same o (ground arith) (ground arith)

  copied-entries_crc32 : entries_crc32 h ≡ entries_crc32 copied
  copied-entries_crc32 =
      le32_same h copied 88 (λ i l u. copied_same i (omega arith) (inr (inr (inr (omega arith)))))

  -- It passes CheckHeader where it is placed.
  copied-good :
      (was is_secondary : Bool) (streaming_drive_sectors gpt_drive_sectors flags : ℕ)
      → check_header (some h) was streaming_drive_sectors gpt_drive_sectors flags ≡ true
      → wrong_place is_secondary copied gpt_drive_sectors ≡ false
      → check_header (some copied) is_secondary streaming_drive_sectors gpt_drive_sectors flags
        ≡ true
  unfolding copied
  copied-good was is_secondary streaming_drive_sectors gpt_drive_sectors flags ok place =
      check_header_same h copied copied-SameFields was is_secondary streaming_drive_sectors
        gpt_drive_sectors flags ok (placed-crc (copy old 0 h 0 92) my alternate entries) place

-- What a copy of a good header is: it passes the checks of its own place, and HeaderFieldsSame.
pub record IsCopy (h g : Bytes) (is_secondary : Bool)
    (streaming_drive_sectors gpt_drive_sectors flags : ℕ) : Type 0 where
  pub good :
      check_header (some g) is_secondary streaming_drive_sectors gpt_drive_sectors flags ≡ true
  pub fields : SameFields h g
  pub crc : entries_crc32 h ≡ entries_crc32 g

module _ (streaming_drive_sectors gpt_drive_sectors flags : ℕ) (was : Bool) where
  second_place :
      (g h : Bytes)
      → my_lba g ≡ sub64 gpt_drive_sectors 1
      → entries_lba g ≡ sub64 (sub64 gpt_drive_sectors 1) (calculate_entries_sectors h)
      → calculate_entries_sectors h ≡ calculate_entries_sectors g
      → wrong_place true g gpt_drive_sectors ≡ false
  second_place g h e f s = ground arith

  first_place :
      (g : Bytes) → my_lba g ≡ 1 → entries_lba g ≡ 2 → wrong_place false g gpt_drive_sectors ≡ false
  first_place g e f = ground arith

  pub repaired_second-IsCopy :
      (header1 header2 : Bytes)
      → check_header (some header1) was streaming_drive_sectors gpt_drive_sectors flags ≡ true
      → IsCopy header1
          (repaired_second header1 header2 gpt_drive_sectors)
          true
          streaming_drive_sectors
          gpt_drive_sectors
          flags
  unfolding repaired_second copied
  repaired_second-IsCopy header1 header2 ok =
      let my = sub64 gpt_drive_sectors 1 in
      let entries = sub64 my (calculate_entries_sectors header1) in
      let base = copy header2 0 header1 0 92 in
      let fields = copied-SameFields header1 header2 my 1 entries in
      record {
        good =
            copied-good header1 header2 my 1 entries was true streaming_drive_sectors
              gpt_drive_sectors flags ok
              (second_place (placed base my 1 entries) header1
                (my_lba-placed base my 1 entries (omega arith))
                (entries_lba-placed base my 1 entries (omega arith))
                (same_sectors header1 (placed base my 1 entries) fields));
        fields = fields;
        crc = copied-entries_crc32 header1 header2 my 1 entries;
      }

  pub repaired_first-IsCopy :
      (header1 header2 : Bytes)
      → check_header (some header2) was streaming_drive_sectors gpt_drive_sectors flags ≡ true
      → IsCopy header2
          (repaired_first header1 header2 streaming_drive_sectors)
          false
          streaming_drive_sectors
          gpt_drive_sectors
          flags
  unfolding repaired_first copied
  repaired_first-IsCopy header1 header2 ok =
      let alternate = sub64 streaming_drive_sectors 1 in
      let base = copy header1 0 header2 0 92 in
      record {
        good =
            copied-good header2 header1 1 alternate (u64 (1 + 1)) was false streaming_drive_sectors
              gpt_drive_sectors flags ok
              (first_place (placed base 1 alternate (u64 (1 + 1)))
                (my_lba-placed base 1 alternate (u64 (1 + 1)) (omega arith))
                (entries_lba-placed base 1 alternate (u64 (1 + 1)) (omega arith)));
        fields = copied-SameFields header2 header1 1 alternate (u64 (1 + 1));
        crc = copied-entries_crc32 header2 header1 1 alternate (u64 (1 + 1));
      }

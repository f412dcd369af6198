-- ===== src/Gpt/Repaired.antt =====
-- The headers that GptRepair and GptModified write.
use futility.Prelude.{ℕ, ◌+◌, ◌*◌, ◌/◌, ◌^◌, ◌≤◌, ◌<◌, ◌⊎◌, inl, inr, Bool}
use futility.Prelude.{true, false, ◌≡◌, arith, ap, sym, ◌∙◌}
use futility.Prelude.{some, u32, ◌-◌}
use futility.Prelude.Text.{codes}
use futility.Prelude.Memory.{memcmp_eq_same, le64_same, Bytes, le32_same, put32, le32-put32}
use futility.Prelude.Memory.{le32-put32_ne}
use futility.Gpt.Crc32.{crc32}
use futility.Gpt.Crc32.Bounds.{crc32-lt, crc32_same}
use futility.Gpt.Check.{check_header, header_crc, calculate_entries_sectors, wrong_place}
use futility.Gpt.Check.{size, header_crc32, number_of_entries}
use futility.Gpt.Check.{size_of_entry, first_usable_lba, last_usable_lba}
use futility.Gpt.Repair.{with_crc}

-- The headers agree but for the CRCs, the places and what lies behind the structure.
abbrev pub IsShared : ℕ → Type 0
IsShared o = (o < 16) ⊎ (((20 ≤ o) × (o < 24)) ⊎ (((40 ≤ o) × (o < 72)) ⊎ ((80 ≤ o) × (o < 88))))

abbrev pub SameFields : Bytes → Bytes → Type 0
SameFields h g = (o : ℕ) → IsShared o → h o ≡ g o

put32_twice : (b : Bytes) (o v w i : ℕ) → put32 (put32 b o v) o w i ≡ put32 b o w i
unfolding put32
put32_twice b o v w i = ground arith

-- A header with its CRC is good in that respect.
pub header_crc-with_crc : (h : Bytes) → header_crc (with_crc h) ≡ header_crc h
unfolding header_crc
header_crc-with_crc h =
    let length_same = le32-put32_ne h 16 (header_crc h) 12 (inl (omega arith)) in
    crc32_same _ _ _ (λ i l. put32_twice h 16 (header_crc h) 0 i)
    ∙ ap (λ (n : ℕ). crc32 (put32 h 16 0) 0 n) length_same

header_crc-lt : (h : Bytes) → header_crc h < 2 ^ 32
unfolding header_crc
header_crc-lt h = crc32-lt (put32 h 16 0) 0 (size h)

pub with_crc_good : (h : Bytes) → header_crc (with_crc h) ≡ header_crc32 (with_crc h)
with_crc_good h = header_crc-with_crc h ∙ sym (le32-put32 h 16 (header_crc h) (header_crc-lt h))

module _ (h g : Bytes) (same : SameFields h g) where
  pub same_number : number_of_entries h ≡ number_of_entries g
  same_number = le32_same h g 80 (λ i l u. same i (inr (inr (inr (omega arith, omega arith)))))

  pub same_entry_size : size_of_entry h ≡ size_of_entry g
  same_entry_size = le32_same h g 84 (λ i l u. same i (inr (inr (inr (omega arith, omega arith)))))

  pub same_first : first_usable_lba h ≡ first_usable_lba g
  same_first = le64_same h g 40 (λ i l u. same i (inr (inr (inl (omega arith, omega arith)))))

  pub same_last : last_usable_lba h ≡ last_usable_lba g
  same_last = le64_same h g 48 (λ i l u. same i (inr (inr (inl (omega arith, omega arith)))))

  pub same_sectors : calculate_entries_sectors h ≡ calculate_entries_sectors g
  unfolding calculate_entries_sectors
  same_sectors = λ t. (u32 (same_number t * same_entry_size t) + 512 - 1) / 512

  -- A header with the same fields passes, if its CRC and its places are right.
  pub check_header_same :
      (was is_secondary : Bool) (streaming_drive_sectors gpt_drive_sectors flags : ℕ)
      → check_header (some h) was streaming_drive_sectors gpt_drive_sectors flags ≡ true
      → header_crc g ≡ header_crc32 g
      → wrong_place is_secondary g gpt_drive_sectors ≡ false
      → check_header (some g) is_secondary streaming_drive_sectors gpt_drive_sectors flags ≡ true
  unfolding check_header
  check_header_same was is_secondary streaming_drive_sectors gpt_drive_sectors flags ok crc place =
      let efi = memcmp_eq_same h g 0 (codes "EFI PART") (λ i l u. same i (inl (omega arith))) in
      let chromeos =
        memcmp_eq_same h g 0 (codes "CHROMEOS") (λ i l u. same i (inl (omega arith))) in
      let revision = le32_same h g 8 (λ i l u. same i (inl (omega arith))) in
      let bytes = le32_same h g 12 (λ i l u. same i (inl (omega arith))) in
      let reserved = le32_same h g 20 (λ i l u. same i (inr (inl (omega arith, omega arith)))) in
      ground (
        arith, efi, chromeos, revision, bytes, reserved, same_number, same_entry_size, same_first,
        same_last, same_sectors, crc, place,
      )

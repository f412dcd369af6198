-- ===== src/Gpt/Moved.antt =====
-- Tables that pass CheckEntries with one header pass with another one, or as a copy.
use futility.Prelude.{ℕ, ◌*◌, ◌≤◌, Bool, true, ◌≡◌, refl, arith}
use futility.Prelude.{ap, sym, ◌∙◌, some, u32}
use futility.Prelude.Memory.{Bytes}
use futility.Prelude.Copy.{copy, copy_start}
use futility.Gpt.Crc32.{crc32}
use futility.Gpt.Crc32.Bounds.{crc32_same}
use futility.Gpt.Layout.{SameLayout, check_each_same}
use futility.Gpt.Check.{check_header, check_entries, check_each, gpt_success}
use futility.Gpt.Check.{number_of_entries, size_of_entry, first_usable_lba, last_usable_lba}
use futility.Gpt.Check.{entries_crc32}
use futility.Gpt.Sanity.{header_fields_same}
use futility.Gpt.Repair.{entries_size}

-- The fields of the header by which CheckEntries goes, but for the CRC.
pub record SameTable (h g : Bytes) : Type 0 where
  pub number : number_of_entries h ≡ number_of_entries g
  pub entry_size : size_of_entry h ≡ size_of_entry g
  pub first : first_usable_lba h ≡ first_usable_lba g
  pub last : last_usable_lba h ≡ last_usable_lba g

pub SameTable-symm : (h g : Bytes) → SameTable h g → SameTable g h
SameTable-symm h g s = record {
  number = sym s.number;
  entry_size = sym s.entry_size;
  first = sym s.first;
  last = sym s.last;
}

pub header_fields_same-SameTable : (h g : Bytes) → header_fields_same h g ≡ true → SameTable h g
unfolding header_fields_same
header_fields_same-SameTable h g e = ground arith

pub header_fields_same-crc :
    (h g : Bytes) → header_fields_same h g ≡ true → entries_crc32 h ≡ entries_crc32 g
unfolding header_fields_same
header_fields_same-crc h g e = ground arith

-- What CheckEntries has checked.
pub entries_crc_good :
    (b h : Bytes)
    → check_entries (some b) h ≡ gpt_success
    → crc32 b 0 (entries_size h) ≡ entries_crc32 h
unfolding check_entries
entries_crc_good b h ok = ground arith

each_good :
    (b h : Bytes)
    → check_entries (some b) h ≡ gpt_success
    → check_each h b (number_of_entries h) 0 ≡ 0
unfolding check_entries
each_good b h ok = ground arith

both_good :
    (b h : Bytes)
    → crc32 b 0 (entries_size h) ≡ entries_crc32 h
    → check_each h b (number_of_entries h) 0 ≡ 0
    → check_entries (some b) h ≡ gpt_success
unfolding check_entries
both_good b h crc each = ground arith

pub check_entries_same :
    (b c h g : Bytes)
    → SameTable h g
    → SameLayout (number_of_entries h) b c
    → crc32 c 0 (entries_size g) ≡ entries_crc32 g
    → check_entries (some b) h ≡ gpt_success
    → check_entries (some c) g ≡ gpt_success
check_entries_same b c h g s layout crc ok = both_good c g crc (
    ap (λ (n : ℕ). check_each g c n 0) (sym s.number)
    ∙ sym (
        check_each_same (number_of_entries h) b c layout h g s.first s.last s.number (omega arith)
          (number_of_entries h) 0 (omega arith))
    ∙ each_good b h ok)

pub entries_size_same : (h g : Bytes) → SameTable h g → entries_size h ≡ entries_size g
entries_size_same h g s = λ t. u32 (s.entry_size t * s.number t)

-- With another header that has the same CRC.
pub check_entries-header :
    (b h g : Bytes)
    → SameTable h g
    → entries_crc32 h ≡ entries_crc32 g
    → check_entries (some b) h ≡ gpt_success
    → check_entries (some b) g ≡ gpt_success
check_entries-header b h g s crc ok =
    check_entries_same b b h g s (λ i o l lo hi. refl)
      (ap (λ (n : ℕ). crc32 b 0 n) (sym (entries_size_same h g s)) ∙ entries_crc_good b h ok ∙ crc)
      ok

-- The entries of a good header have 128 bytes each, and are at most 128.
pub record TableBounds (h : Bytes) : Type 0 where
  pub entry_size : size_of_entry h ≡ 128
  pub number : number_of_entries h ≤ 128

pub check_header-TableBounds :
    (h : Bytes) (is_secondary : Bool) (streaming_drive_sectors gpt_drive_sectors flags : ℕ)
    → check_header (some h) is_secondary streaming_drive_sectors gpt_drive_sectors flags ≡ true
    → TableBounds h
unfolding check_header
check_header-TableBounds h is_secondary streaming_drive_sectors gpt_drive_sectors flags ok =
    record { entry_size = ground arith; number = ground arith }

-- The copy that GptRepair makes.
pub check_entries-copy :
    (b old h : Bytes)
    → TableBounds h
    → check_entries (some b) h ≡ gpt_success
    → check_entries (some (copy old 0 b 0 (entries_size h))) h ≡ gpt_success
check_entries-copy b old h bounds ok =
    let long : entries_size h ≡ 128 * number_of_entries h =
      rw bounds.entry_size (omega (arith, bounds.number)) in
    check_entries_same b (copy old 0 b 0 (entries_size h)) h h
      (record { number = refl; entry_size = refl; first = refl; last = refl })
      (λ i o l lo hi. sym (copy_start old b (entries_size h) o (omega arith)))
      (crc32_same (copy old 0 b 0 (entries_size h)) b (entries_size h)
          (copy_start old b (entries_size h))
        ∙ entries_crc_good b h ok)
      ok

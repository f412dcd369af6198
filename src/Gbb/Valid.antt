-- ===== src/Gbb/Valid.antt =====
-- What the headers that futil_valid_gbb_header of src/misc.c accepts look like, by the bytes.
use futility.Prelude.{ℕ, zero, suc, ◌+◌, ◌^◌, ◌≤◌, ◌<◌, ◌≡◌, ◌≢◌, ◌⊎◌, ◌↔◌, arith, true, ◌==◌}
use futility.Prelude.{inl, inr, Bool-cases}
use native.Mathlib.Decide.{ℕ_discrete}
use futility.Prelude.Memory.{Bytes, IsBytes, le32-lt, memcmp_eq}
use futility.Gbb.Header.{
  Part, hwid, rootkey, bmpfv, recovery_key, part_field, part_offset, part_size,
}
use futility.Gbb.Header.{futil_valid_gbb_header, gbb_signature, major_version, header_size}
use futility.Gbb.Header.{is_null_terminated, zero_among}
use futility.Gbb.Laws.{PartValid, PartValid-of, HasZero, zero_among-HasZero}
use futility.Gbb.Laws.{futil_valid_gbb_header-GbbChecks}

-- A component starts behind the header's 128 bytes, and its end, as a number of any size, is at
-- most the length; or the end does not fit 32 bits, and what is left of it there is at most the
-- length.
pub record PartInside (b : Bytes) (gbb len : ℕ) (p : Part) : Type 0 where
  pub after_header : 128 ≤ part_offset b gbb p
  pub ends :
      (part_offset b gbb p + part_size b gbb p ≤ len)
      ⊎ ((2 ^ 32 ≤ part_offset b gbb p + part_size b gbb p)
          × (part_offset b gbb p + part_size b gbb p ≤ len + 2 ^ 32))

-- The header of a GBB of which `len` bytes are there.
pub record GbbValid (b : Bytes) (gbb len : ℕ) : Type 0 where
  pub room : 128 ≤ len
  pub signature :
      (b gbb ≡ b'$') × (b (gbb + 1) ≡ b'G') × (b (gbb + 2) ≡ b'B') × (b (gbb + 3) ≡ b'B')
  pub version : major_version b gbb ≡ 1
  pub size : header_size b gbb ≡ 128
  pub parts : (p : Part) → PartInside b gbb len p
  pub hwid_small : part_size b gbb hwid < 2 ^ 31
  pub hwid_text :
      part_size b gbb hwid ≢ 0 → HasZero b (gbb + part_offset b gbb hwid) (part_size b gbb hwid)

module _ (b : Bytes) (gbb len : ℕ) where
  signature_iff :
      (memcmp_eq b gbb gbb_signature ≡ true)
      ↔ ((b gbb ≡ b'$') × (b (gbb + 1) ≡ b'G') × (b (gbb + 2) ≡ b'B') × (b (gbb + 3) ≡ b'B'))
  unfolding memcmp_eq
  signature_iff = ((λ h. ground arith), (λ h. ground arith))

  part_iff : IsBytes b → (p : Part) → PartValid b gbb len p ↔ PartInside b gbb len p
  part_iff bytes p =
      let offset_small = le32-lt b (gbb + part_field p) bytes in
      let size_small = le32-lt b (gbb + part_field p + 4) bytes in
      ((λ v. ground arith), (λ v. ground arith))

HasZero-zero_among : (b : Bytes) (s len : ℕ) → HasZero b s len → zero_among b s len ≡ true
unfolding zero_among
HasZero-zero_among b s zero (i, lt, e) = absurd (omega arith)
HasZero-zero_among b s (suc len) (i, lt, e) = elim (Bool-cases (i == len)) [
  | inl here ↦ ground arith
  | inr other ↦ let before = HasZero-zero_among b s len (i, ground arith, e) in ground arith
]

-- What is_null_terminated finds, for a size that an int holds.
is_null_terminated_iff :
    (b : Bytes) (s len : ℕ)
    → (is_null_terminated b s len ≡ true) ↔ ((len < 2 ^ 31) × HasZero b s len)
unfolding is_null_terminated
is_null_terminated_iff b s len = (
  (λ h. (ground arith, zero_among-HasZero b s len (ground arith))),
  (λ (small, z). let found = HasZero-zero_among b s len z in ground arith),
)

-- futil_valid_gbb_header, of a buffer of bytes, accepts exactly the headers with the signature, the
-- version 1 and the size 128, whose components each start behind the header and end within the
-- length (or end past 2 ^ 32, with what the 32-bit sum keeps of the end within it), and whose HWID
-- is smaller than 2 ^ 31 and, if it has any bytes, holds a zero byte.
pub futil_valid_gbb_header_iff :
    (b : Bytes) (gbb len : ℕ)
    → IsBytes b
    → (futil_valid_gbb_header b gbb len ≡ true) ↔ GbbValid b gbb len
futil_valid_gbb_header_iff b gbb len bytes =
    let (checks, accepted) = futil_valid_gbb_header-GbbChecks b gbb len in
    let (letters, compared) = signature_iff b gbb len in
    let (text, terminated) =
      is_null_terminated_iff b (gbb + part_offset b gbb hwid) (part_size b gbb hwid) in
    (
      λ h.
          let c = checks h in
          record {
            room = c.room;
            signature = letters c.signature;
            version = c.version;
            size = c.size;
            parts = λ p. (part_iff b gbb len bytes p).0 (PartValid-of p c);
            hwid_small = elim (ℕ_discrete (part_size b gbb hwid) 0) [
              | yes e ↦ omega arith
              | no ne ↦ (text (c.hwid_text ne)).0
            ];
            hwid_text = λ ne. (text (c.hwid_text ne)).1;
          },
      λ v. accepted (record {
        room = v.room;
        signature = compared v.signature;
        version = v.version;
        size = v.size;
        hwid_part = (part_iff b gbb len bytes hwid).1 (v.parts hwid);
        rootkey_valid = (part_iff b gbb len bytes rootkey).1 (v.parts rootkey);
        bmpfv_valid = (part_iff b gbb len bytes bmpfv).1 (v.parts bmpfv);
        recovery_key_valid = (part_iff b gbb len bytes recovery_key).1 (v.parts recovery_key);
        hwid_text = λ ne. terminated (v.hwid_small, v.hwid_text ne);
      }),
    )

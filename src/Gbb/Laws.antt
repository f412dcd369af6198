-- ===== src/Gbb/Laws.antt =====
-- What futil_valid_gbb_header accepts.
use futility.Prelude.{ℕ, zero, suc, ◌+◌, ◌^◌, ◌≤◌, ◌<◌, ◌≡◌, ◌≢◌, ◌↔◌, arith, true, ◌==◌}
use futility.Prelude.{inl, inr, Bool-cases}
use futility.Prelude.Memory.{Bytes, memcmp_eq}
use futility.Gbb.Header.{Part, hwid, rootkey, bmpfv, recovery_key, part_offset, part_size, part_end}
use native.Mathlib.Decide.{ℕ_discrete}
use futility.Gbb.Header.{part_valid, hwid_valid}
use futility.Gbb.Header.{futil_valid_gbb_header, gbb_header_size, gbb_signature, major_version}
use futility.Gbb.Header.{header_size, is_null_terminated, zero_among, gbb_maxlen}

abbrev pub HasZero : Bytes → ℕ → ℕ → Type 0
HasZero b s len = (i : ℕ) × (i < len) × (b (s + i) ≡ 0)

pub zero_among-HasZero : (b : Bytes) (s len : ℕ) → zero_among b s len ≡ true → HasZero b s len
unfolding zero_among
zero_among-HasZero b s zero h = absurd (ground arith)
zero_among-HasZero b s (suc len) h = elim (Bool-cases (b (s + len) == 0)) [
  | inl here ↦ (len, omega arith, ground arith)
  | inr other ↦ widen (zero_among-HasZero b s len (ground arith))
]
  where
    widen : HasZero b s len → HasZero b s (suc len)
    widen (i, lt, e) = (i, omega arith, e)

-- A component, as the checks see it: after the header, and ending, by a sum of 32 bits, within the
-- length.
pub record PartValid (b : Bytes) (gbb len : ℕ) (p : Part) : Type 0 where
  pub after_header : gbb_header_size ≤ part_offset b gbb p
  pub ends : part_end b gbb p ≤ len

pub record GbbChecks (b : Bytes) (gbb len : ℕ) : Type 0 where
  pub room : gbb_header_size ≤ len
  pub signature : memcmp_eq b gbb gbb_signature ≡ true
  pub version : major_version b gbb ≡ 1
  pub size : header_size b gbb ≡ gbb_header_size
  pub hwid_part : PartValid b gbb len hwid
  pub rootkey_valid : PartValid b gbb len rootkey
  pub bmpfv_valid : PartValid b gbb len bmpfv
  pub recovery_key_valid : PartValid b gbb len recovery_key
  pub hwid_text :
      part_size b gbb hwid ≢ 0
      → is_null_terminated b (gbb + part_offset b gbb hwid) (part_size b gbb hwid) ≡ true

part_valid_iff :
    (b : Bytes) (gbb len : ℕ) (p : Part) → (part_valid b gbb len p ≡ true) ↔ PartValid b gbb len p
unfolding part_valid
part_valid_iff b gbb len p = (λ h. ground arith, λ v. ground arith)

hwid_valid_iff :
    (b : Bytes) (gbb : ℕ)
    → (hwid_valid b gbb ≡ true) ↔ (
        part_size b gbb hwid ≢ 0
        → is_null_terminated b (gbb + part_offset b gbb hwid) (part_size b gbb hwid) ≡ true)
unfolding hwid_valid
hwid_valid_iff b gbb = (
  λ h ne. ground arith,
  λ t. elim (ℕ_discrete (part_size b gbb hwid) 0) [
    | yes e ↦ ground arith
    | no ne ↦ ground (arith, t ne)
  ],
)

-- The result is true exactly if every test is passed.
pub futil_valid_gbb_header-GbbChecks :
    (b : Bytes) (gbb len : ℕ) → (futil_valid_gbb_header b gbb len ≡ true) ↔ GbbChecks b gbb len
unfolding futil_valid_gbb_header
futil_valid_gbb_header-GbbChecks b gbb len =
    let hwid_part = part_valid_iff b gbb len hwid in
    let rootkey_part = part_valid_iff b gbb len rootkey in
    let bmpfv_part = part_valid_iff b gbb len bmpfv in
    let recovery_part = part_valid_iff b gbb len recovery_key in
    let text = hwid_valid_iff b gbb in
    (
      λ h. record {
        room = ground arith;
        signature = ground arith;
        version = ground arith;
        size = ground arith;
        hwid_part = hwid_part.0 (ground arith);
        rootkey_valid = rootkey_part.0 (ground arith);
        bmpfv_valid = bmpfv_part.0 (ground arith);
        recovery_key_valid = recovery_part.0 (ground arith);
        hwid_text = text.0 (ground arith);
      },
      λ v. ground (
        arith,
        hwid_part.1 v.hwid_part,
        rootkey_part.1 v.rootkey_valid,
        bmpfv_part.1 v.bmpfv_valid,
        recovery_part.1 v.recovery_key_valid,
        text.1 v.hwid_text,
      ),
    )

pub PartValid-of :
    {b : Bytes} {gbb len : ℕ} (p : Part) → GbbChecks b gbb len → PartValid b gbb len p
PartValid-of hwid v = v.hwid_part
PartValid-of rootkey v = v.rootkey_valid
PartValid-of bmpfv v = v.bmpfv_valid
PartValid-of recovery_key v = v.recovery_key_valid

-- A component of a valid header lies after the header and within the length, if its offset and size
-- add up to less than 2 ^ 32.
pub part_inside :
    (b : Bytes) (gbb len : ℕ) (p : Part)
    → futil_valid_gbb_header b gbb len ≡ true
    → part_offset b gbb p + part_size b gbb p < 2 ^ 32
    → (gbb_header_size ≤ part_offset b gbb p) × (part_offset b gbb p + part_size b gbb p ≤ len)
part_inside b gbb len p h small =
    let part = PartValid-of p ((futil_valid_gbb_header-GbbChecks b gbb len).0 h) in omega arith

-- The maximum length that the function reports for a valid header does not pass the length given.
pub gbb_maxlen-le :
    (b : Bytes) (gbb len : ℕ) → futil_valid_gbb_header b gbb len ≡ true → gbb_maxlen b gbb ≤ len
unfolding gbb_maxlen
gbb_maxlen-le b gbb len h = let v = (futil_valid_gbb_header-GbbChecks b gbb len).0 h in ground arith

-- A valid header with a HWID has a zero byte in it, so that it can be read as a string.
pub hwid-HasZero :
    (b : Bytes) (gbb len : ℕ)
    → futil_valid_gbb_header b gbb len ≡ true
    → part_size b gbb hwid ≢ 0
    → HasZero b (gbb + part_offset b gbb hwid) (part_size b gbb hwid)
unfolding is_null_terminated
hwid-HasZero b gbb len h some_hwid =
    let v = (futil_valid_gbb_header-GbbChecks b gbb len).0 h in
    zero_among-HasZero b (gbb + part_offset b gbb hwid) (part_size b gbb hwid)
      (ground (arith, v.hwid_text some_hwid))

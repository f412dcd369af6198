-- ===== src/Gbb/Create.antt =====
-- create_gbb of src/cmd_gbb_utility.c, once the sizes are parsed: the blob, as its bytes and its
-- length. The four sizes are uint32_t values, the missing ones 0.
use futility.Prelude.{ℕ, zero, suc, ◌+◌, ◌^◌, ◌<◌, ◌≤◌, ◌≡◌, ◌≢◌, refl, arith, true, u32}
use futility.Prelude.Memory.{Bytes, le16, le32, put16, put32, put_text, memcmp_eq}
use futility.Gbb.Header.{hwid, rootkey, bmpfv, recovery_key, part_offset, part_size}
use futility.Gbb.Header.{futil_valid_gbb_header, gbb_header_size, gbb_signature}
use futility.Gbb.Header.{zero_among, is_null_terminated}
use futility.Gbb.Laws.{futil_valid_gbb_header-GbbChecks}

-- `uint32_t val[]`, in the order of the command line.
pub record Sizes : Type 0 where
  pub hwid_size : ℕ
  pub rootkey_size : ℕ
  pub bmpfv_size : ℕ
  pub recovery_key_size : ℕ

abbrev pub total_size : Sizes → ℕ
total_size v = gbb_header_size + v.hwid_size + v.rootkey_size + v.bmpfv_size + v.recovery_key_size

unfoldable pub create_gbb : Sizes → Bytes
create_gbb v =
    let rootkey_at = gbb_header_size + v.hwid_size in
    let bmpfv_at = rootkey_at + v.rootkey_size in
    let recovery_key_at = bmpfv_at + v.bmpfv_size in
    let head =
      put32 (put16 (put16 (put_text (λ _. 0) 0 gbb_signature) 4 1) 6 2) 8 gbb_header_size in
    let with_hwid = put32 (put32 (put32 head 12 0) 16 gbb_header_size) 20 v.hwid_size in
    let with_rootkey = put32 (put32 with_hwid 24 (u32 rootkey_at)) 28 v.rootkey_size in
    let with_bmpfv = put32 (put32 with_rootkey 32 (u32 bmpfv_at)) 36 v.bmpfv_size in
    put32 (put32 with_bmpfv 40 (u32 recovery_key_at)) 44 v.recovery_key_size

module _ (v : Sizes) (small : total_size v < 2 ^ 31) where
  -- The four components follow the header and one another, and the last ends the blob.
  pub create_gbb-layout :
      (part_offset (create_gbb v) 0 hwid ≡ gbb_header_size)
      × (part_size (create_gbb v) 0 hwid ≡ v.hwid_size)
      × (part_offset (create_gbb v) 0 rootkey ≡ gbb_header_size + v.hwid_size)
      × (part_size (create_gbb v) 0 rootkey ≡ v.rootkey_size)
      × (part_offset (create_gbb v) 0 bmpfv ≡ gbb_header_size + v.hwid_size + v.rootkey_size)
      × (part_size (create_gbb v) 0 bmpfv ≡ v.bmpfv_size)
      × (part_offset (create_gbb v) 0 recovery_key + v.recovery_key_size ≡ total_size v)
      × (part_size (create_gbb v) 0 recovery_key ≡ v.recovery_key_size)
  unfolding create_gbb put32
  create_gbb-layout = omega arith

  body-zero : (i : ℕ) → gbb_header_size ≤ i → create_gbb v i ≡ 0
  unfolding create_gbb put32
  body-zero i h = ground arith

  head-eq :
      (memcmp_eq (create_gbb v) 0 gbb_signature ≡ true)
      × (le16 (create_gbb v) 4 ≡ 1)
      × (le32 (create_gbb v) 8 ≡ gbb_header_size)
  unfolding create_gbb put32 memcmp_eq
  head-eq = (refl, refl, refl)

  zero_hwid :
      (n : ℕ)
      → n ≢ 0
      → n < 2 ^ 31
      → is_null_terminated (create_gbb v) (0 + part_offset (create_gbb v) 0 hwid) n ≡ true
  unfolding is_null_terminated zero_among
  zero_hwid zero ne h = absurd (ne refl)
  zero_hwid (suc n) ne h = ground (
    arith,
    create_gbb-layout,
    body-zero (0 + part_offset (create_gbb v) 0 hwid + n) (omega (arith, create_gbb-layout)),
  )

  -- What create mode writes is a valid GBB, if it is smaller than 2 GiB.
  pub create_gbb-valid : futil_valid_gbb_header (create_gbb v) 0 (total_size v) ≡ true
  create_gbb-valid = (futil_valid_gbb_header-GbbChecks (create_gbb v) 0 (total_size v)).1 (record {
    room = omega arith;
    signature = head-eq.0;
    version = head-eq.1;
    size = head-eq.2;
    hwid_part = omega (arith, create_gbb-layout);
    rootkey_valid = omega (arith, create_gbb-layout);
    bmpfv_valid = omega (arith, create_gbb-layout);
    recovery_key_valid = omega (arith, create_gbb-layout);
    hwid_text =
        λ ne. zero_hwid (part_size (create_gbb v) 0 hwid) ne (omega (arith, create_gbb-layout));
  })

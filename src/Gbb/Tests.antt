-- ===== src/Gbb/Tests.antt =====
-- The theorems on GBB headers at a blob that create mode writes.
use futility.Prelude.{◌+◌, ◌^◌, ◌<◌, ◌≤◌, ◌≡◌, ◌↔◌, arith, true}
use futility.Gbb.Header.{hwid, rootkey, bmpfv, recovery_key, part_offset, part_size}
use futility.Gbb.Header.{
  gbb_header_size, futil_valid_gbb_header, gbb_maxlen, part_valid, hwid_valid, is_null_terminated,
  zero_among,
}
use futility.Gbb.Laws.{HasZero, part_inside, gbb_maxlen-le}
use futility.Gbb.Valid.{GbbValid, futil_valid_gbb_header_iff}
use futility.Gbb.Laws.{hwid-HasZero}
use futility.Gbb.Set.{
  Outside, Request, get_hwid, print_hwid_digest, set_hwid, set_flags, set_all, do_set,
}
use futility.Gbb.SetHwid.{set_hwid_lem}
use futility.Gbb.SetFrame.{Elsewhere, Behind, find_gbb_header-Behind, do_set-Elsewhere}
use futility.Prelude.{
  ℕ, List, replicate, length, length-replicate, ◌⊎◌, some, none, refl, inl, option_some, ◌∙◌,
}
use futility.Prelude.Memory.{Bytes, IsBytes, memcmp_eq, put32}
use futility.Prelude.Text.{codes}
use futility.Gbb.Create.{Sizes, create_gbb, create_gbb-layout, create_gbb-valid}
use futility.Gbb.Find.{find_gbb_header, find_loop, Unique, find_gbb_header-Unique}

abbrev sizes : Sizes
sizes = record { hwid_size = 16; rootkey_size = 32; bmpfv_size = 0; recovery_key_size = 64 }

create_gbb-valid_example : futil_valid_gbb_header (create_gbb sizes) 0 240 ≡ true
create_gbb-valid_example = create_gbb-valid sizes (omega arith)

create_gbb-layout_test :
    (part_offset (create_gbb sizes) 0 hwid ≡ gbb_header_size)
    × (part_size (create_gbb sizes) 0 hwid ≡ 16)
    × (part_offset (create_gbb sizes) 0 rootkey ≡ 144)
    × (part_size (create_gbb sizes) 0 rootkey ≡ 32)
    × (part_offset (create_gbb sizes) 0 bmpfv ≡ 176)
    × (part_size (create_gbb sizes) 0 bmpfv ≡ 0)
    × (part_offset (create_gbb sizes) 0 recovery_key + 64 ≡ 240)
    × (part_size (create_gbb sizes) 0 recovery_key ≡ 64)
create_gbb-layout_test = create_gbb-layout sizes (omega arith)

create_gbb-IsBytes : IsBytes (create_gbb sizes)
unfolding create_gbb put32
create_gbb-IsBytes i = ground arith

futil_valid_gbb_header_iff_example :
    (futil_valid_gbb_header (create_gbb sizes) 0 240 ≡ true) ↔ GbbValid (create_gbb sizes) 0 240
futil_valid_gbb_header_iff_example =
    futil_valid_gbb_header_iff (create_gbb sizes) 0 240 create_gbb-IsBytes

valid : futil_valid_gbb_header (create_gbb sizes) 0 240 ≡ true
valid = create_gbb-valid sizes (omega arith)

rootkey_fits :
    part_offset (create_gbb sizes) 0 rootkey + part_size (create_gbb sizes) 0 rootkey < 2 ^ 32
rootkey_fits = omega (arith, create_gbb-layout sizes (omega arith))

part_inside_test :
    (gbb_header_size ≤ part_offset (create_gbb sizes) 0 rootkey)
    × (part_offset (create_gbb sizes) 0 rootkey + part_size (create_gbb sizes) 0 rootkey ≤ 240)
part_inside_test = part_inside (create_gbb sizes) 0 240 rootkey valid rootkey_fits

gbb_maxlen-le_test : gbb_maxlen (create_gbb sizes) 0 ≤ 240
gbb_maxlen-le_test = gbb_maxlen-le (create_gbb sizes) 0 240 valid

hwid-HasZero_test :
    HasZero
      (create_gbb sizes)
      (0 + part_offset (create_gbb sizes) 0 hwid)
      (part_size (create_gbb sizes) 0 hwid)
hwid-HasZero_test =
    hwid-HasZero (create_gbb sizes) 0 240 valid
      (λ e. absurd (omega (arith, create_gbb-layout sizes (omega arith))))

find_gbb_header-Unique_example :
    Unique (create_gbb sizes) 240 60 0 (find_gbb_header (create_gbb sizes) 240)
find_gbb_header-Unique_example =
    find_gbb_header-Unique (create_gbb sizes) 240 (omega arith) (omega arith)

-- A digest for tests, and a disk without files.
abbrev outside : Outside
outside = record {
  sha256 = λ text. replicate 32 (length text);
  strtoul = λ text. (5, true);
  file = λ name. none;
}

sha256-length : (text : List ℕ) → length (outside.sha256 text) ≡ 32
sha256-length text = length-replicate 32 (length text)

set_hwid_lem_example :
    (b' : Bytes) × (set_hwid outside 240 (create_gbb sizes) 0 (codes "TEST 1") ≡ (b', true))
    × (get_hwid 240 b' 0 ≡ codes "TEST 1")
    × (print_hwid_digest outside 240 b' 0 ≡ true)
    × ((i : ℕ)
        → (i < 0 + 48) ⊎ (0 + 80 ≤ i)
        → (i < 0 + part_offset (create_gbb sizes) 0 hwid)
          ⊎ (0 + part_offset (create_gbb sizes) 0 hwid + part_size (create_gbb sizes) 0 hwid ≤ i)
        → b' i ≡ create_gbb sizes i)
set_hwid_lem_example =
    set_hwid_lem outside 240 sha256-length (create_gbb sizes) 0 (codes "TEST 1")
      (omega (arith, create_gbb-layout sizes (omega arith)))
      (omega (arith, create_gbb-layout sizes (omega arith)))
      (omega (arith, create_gbb-layout sizes (omega arith)))
      (
        (λ e. omega arith),
        (
          (λ e. omega arith),
          (
            (λ e. omega arith),
            ((λ e. omega arith), ((λ e. omega arith), ((λ e. omega arith), tt))),
          ),
        ),
      )

abbrev request : Request
request = record {
  opt_hwid = some (codes "TEST 1");
  opt_flags = some (codes "5");
  opt_rootkey = none;
  opt_bmpfv = none;
  opt_recoverykey = none;
}

abbrev made : Bytes
made = create_gbb sizes

find_test : find_gbb_header made 240 ≡ some 0
unfolding create_gbb find_gbb_header find_loop futil_valid_gbb_header part_valid hwid_valid
    is_null_terminated zero_among memcmp_eq put32
find_test = refl

abbrev saved : Bytes
saved = (set_all outside 240 request made 0).0

set_test : (set_all outside 240 request made 0).1 ≡ true
unfolding create_gbb set_all set_hwid set_flags put32
set_test = refl

do_set_test : do_set outside 240 request made 240 ≡ some saved
unfolding do_set
do_set_test = option_some _ _ find_test ∙ rw set_test refl

made-Behind : Behind made 0
made-Behind = find_gbb_header-Behind made 240 0 find_test

first_byte : Elsewhere made 0 0
first_byte = record {
  off_flags = inl (omega arith);
  off_digest = inl (omega arith);
  off_part = λ p. inl (omega (arith, made-Behind p));
}

do_set-Elsewhere_example : saved 0 ≡ made 0
do_set-Elsewhere_example =
    do_set-Elsewhere outside 240 request made saved 240 0 0 sha256-length find_test do_set_test
      first_byte

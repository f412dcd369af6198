-- ===== src/LoadFmap/Tests.antt =====
-- A flash of 256 bytes with one area, of 4 bytes at 16.
use futility.Prelude.{
  ℕ, zero, suc, ◌+◌, ◌≡◌, ◌≢◌, refl, ap, arith, true, false, some, List, [], ◌∷◌, ◌↔◌, take, length,
  ltb, ◌≤◌, if◌then◌else◌, ◌<◌,
}
use futility.Prelude.Memory.{
  Bytes, put_text, put16, put32, put_all, memcmp_eq, strncmp_eq, bytes_at, le32,
}
use futility.Prelude.Text.{codes}
use futility.Fmap.Search.{grow, scan, descend}
use futility.Fmap.Defs.{fmap_signature, is_fmap, fmap_find, fmap_find_by_name, find_area}
use futility.Fmap.Areas.{is_named}
use futility.Fmap.Defs.{area_at, fmap_nareas}
use futility.Prelude.Text.{same_text, cut_at_colon}
use futility.Prelude.Memory.{text_at}
use futility.DumpFmap.Extract.{
  Disk, prepare_arg, prepare_args, find_arg, save, save_named, save_areas, dump_fmap,
}
use futility.LoadFmap.Complement.{stored, do_load_fmap-dump_fmap}
use futility.DumpFmap.Extracted.{dump_fmap-FromAreas, FromAreas}
use futility.LoadFmap.Defs.{Files, split_arg, copy_to_area, load_area, load_areas, do_load_fmap}
use futility.LoadFmap.Loop.{Loads, load_area_iff}
use futility.LoadFmap.Restore.{Holds, do_load_fmap-Holds}
use futility.LoadFmap.Frame.{Fit, Touches, do_load_fmap-untouched}

abbrev flash : Bytes
unfolding put32
flash =
    put_text
      (put16
        (put_text
          (put_text (put_all (λ i. if ltb i 32 then i else 0) ((120, 16) ∷ (124, 4) ∷ [])) 64
            fmap_signature)
          72 (1 ∷ []))
        118 1)
      128 (codes "RO")

-- Every file holds 7, 8, 9, … and 12.
abbrev some_files : Files
some_files file n = some (take n (7 ∷ 8 ∷ 9 ∷ 10 ∷ 11 ∷ 12 ∷ []), true)

argument : split_arg (codes "RO:new") ≡ some (codes "RO", codes "new")
unfolding split_arg
argument = refl

map_found : fmap_find flash 256 ≡ some 64
unfolding fmap_find is_fmap memcmp_eq grow scan descend put32
map_found = refl

area_found : fmap_find_by_name flash 256 (some 64) (codes "RO") ≡ some 120
unfolding fmap_find_by_name find_area strncmp_eq put32
area_found = refl

load_test : (do_load_fmap some_files flash 256 (codes "RO:new" ∷ [])).1 ≡ true
unfolding do_load_fmap load_areas load_area copy_to_area split_arg fmap_find is_fmap memcmp_eq grow
    scan descend fmap_find_by_name find_area strncmp_eq put32
load_test = refl

bogus_test : (do_load_fmap some_files flash 256 (codes "RO:" ∷ [])).1 ≡ false
unfolding do_load_fmap load_areas load_area copy_to_area split_arg fmap_find is_fmap memcmp_eq grow
    scan descend fmap_find_by_name find_area strncmp_eq put32
bogus_test = refl

load_area_iff_test :
    ((load_area some_files flash 256 64 (codes "RO:new")).1 ≡ true)
    ↔ Loads some_files flash 256 64
        (codes "RO:new")
        (load_area some_files flash 256 64 (codes "RO:new")).0
load_area_iff_test = load_area_iff some_files flash 256 64 (codes "RO:new")

-- The file that dump_fmap extracts.
abbrev extracted : Files
extracted file n = some (bytes_at n flash 16, true)

same_bytes : Holds extracted flash 256 64 (codes "RO:new")
unfolding put32
same_bytes = record {
  name = codes "RO";
  file = codes "new";
  ah = 120;
  split = argument;
  found = area_found;
  some_bytes = λ e. omega arith;
  bytes = refl;
}

do_load_fmap-Holds_example : do_load_fmap extracted flash 256 (codes "RO:new" ∷ []) ≡ (flash, true)
do_load_fmap-Holds_example =
    do_load_fmap-Holds extracted flash 256 64 (codes "RO:new" ∷ []) map_found (same_bytes, tt)

length-take : (n : ℕ) (l : List ℕ) → length (take n l) ≤ n
length-take zero l = omega arith
length-take (suc n) [] = omega arith
length-take (suc n) (x ∷ l) = omega (arith, length-take n l)

some_files-Fit : Fit some_files
some_files-Fit file n text closed e = ground (arith, length-take n (7 ∷ 8 ∷ 9 ∷ 10 ∷ 11 ∷ 12 ∷ []))

Touches-area : (i : ℕ) → Touches some_files 256 64 flash (codes "RO:new") i → (16 ≤ i) × (i < 20)
unfolding put32
Touches-area i t =
    let name : t.name ≡ codes "RO" = cc (t.split, argument) in
    let ah : t.ah ≡ 120 = cc (t.found, area_found, name) in
    let start : le32 flash t.ah ≡ 16 = ap (le32 flash) ah in
    let size : le32 flash (t.ah + 4) ≡ 4 = ap (λ (o : ℕ). le32 flash (o + 4)) ah in
    omega (arith, t.above, t.below, start, size)

-- The flash map stands at 64 and behind.
do_load_fmap-untouched_example :
    (do_load_fmap some_files flash 256 (codes "RO:new" ∷ [])).0 40 ≡ flash 40
do_load_fmap-untouched_example =
    do_load_fmap-untouched some_files flash 256 64 (codes "RO:new" ∷ []) 40 some_files-Fit map_found
      ((λ j l u t. omega (arith, Touches-area j t)), tt)
      ((λ t. omega (arith, Touches-area 40 t)), tt)

-- A disk on which everything succeeds.
abbrev disk : Disk
disk = record { opens = λ f. true; writes = λ f t. true }

dump_test :
    dump_fmap disk flash 256 64 (codes "RO:new" ∷ [])
    ≡ ((codes "new", 16 ∷ 17 ∷ 18 ∷ 19 ∷ []) ∷ [], true)
unfolding dump_fmap save_areas save_named save prepare_args prepare_arg cut_at_colon find_arg
    same_text text_at put32
dump_test = refl

dump_saved : (dump_fmap disk flash 256 64 (codes "RO:new" ∷ [])).1 ≡ true
dump_saved = ap (λ r. r.1) dump_test

only_area : (j : ℕ) → j < fmap_nareas flash 64 → is_named flash 64 (codes "RO") j ≡ true → j ≡ 0
unfolding put32
only_area zero l e = refl
only_area (suc j) l e = absurd (omega arith)

first_area : is_named flash 64 (codes "RO") 0 ≡ true
unfolding strncmp_eq put32
first_area = refl

one_area : (0 < fmap_nareas flash 64) × (le32 flash (area_at 64 0 + 4) ≢ 0)
unfolding put32
one_area = (omega arith, λ e. omega arith)

do_load_fmap-dump_fmap_example :
    do_load_fmap
      (stored (dump_fmap disk flash 256 64 (codes "RO:new" ∷ [])).0)
      flash
      256
      (codes "RO:new" ∷ [])
    ≡ (flash, true)
do_load_fmap-dump_fmap_example =
    do_load_fmap-dump_fmap disk flash 256 64 (codes "RO") (codes "new") 0 (omega arith)
      ((λ e. omega arith), ((λ e. omega arith), tt)) first_area only_area (codes "RO:new") map_found
      argument one_area.0 one_area.1 dump_saved

dump_fmap-FromAreas_example :
    FromAreas disk flash 256 64 (dump_fmap disk flash 256 64 (codes "RO:new" ∷ [])).0
dump_fmap-FromAreas_example = dump_fmap-FromAreas disk flash 256 64 (codes "RO:new" ∷ []) dump_saved

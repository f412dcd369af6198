-- ===== src/Gbb/SetFrame.antt =====
-- What set mode leaves alone.
use futility.Prelude.{
  ℕ, zero, suc, ◌+◌, ◌≤◌, ◌<◌, ◌==◌, ◌≡◌, refl, arith, ltb, Bool, true, Option, none, some, List,
  [], ◌∷◌, ◌++◌, length, ◌∙◌, ◌⊎◌, inl, inr, length-append, if_cases, option_cases, u32, sub64, ◌-◌,
  ◌/◌,
}
use futility.Prelude.Memory.{Bytes, put32_ne, put_text, put_text_ne, le32_same}
use futility.Gbb.Header.{
  Part, hwid, rootkey, bmpfv, recovery_key, part_field, part_offset, part_size, minor_version,
  gbb_header_size,
}
use futility.Gbb.Find.{find_gbb_header, find_loop, gbb_at}
use futility.Gbb.Header.{futil_valid_gbb_header}
use futility.Gbb.Laws.{futil_valid_gbb_header-GbbChecks, PartValid-of}
use futility.Gbb.Set.{
  Outside, Request, wipe, hwid_str, update_hwid_digest, set_hwid, set_flags, import_part, step,
  set_all, do_set,
}

-- The byte `i` is not one of those that set mode is for: of the flags, of the digest, or of a component.
pub record Elsewhere (b : Bytes) (gbb i : ℕ) : Type 0 where
  pub off_flags : (i < gbb + 12) ⊎ (gbb + 16 ≤ i)
  pub off_digest : (i < gbb + 48) ⊎ (gbb + 80 ≤ i)
  pub off_part :
      (p : Part)
      → (i < gbb + part_offset b gbb p) ⊎ (gbb + part_offset b gbb p + part_size b gbb p ≤ i)

-- The components stand behind the header.
abbrev pub Behind : Bytes → ℕ → Type 0
Behind b gbb = (p : Part) → gbb_header_size ≤ part_offset b gbb p

-- The bytes elsewhere are those of `b`.
abbrev Keeps : Bytes → ℕ → Bytes → Type 0
Keeps b gbb m = (i : ℕ) → Elsewhere b gbb i → m i ≡ b i

-- The offsets and sizes of the components stand elsewhere.
field-Elsewhere :
    (b : Bytes) (gbb i : ℕ) → Behind b gbb → gbb + 16 ≤ i → i < gbb + 48 → Elsewhere b gbb i
field-Elsewhere b gbb i h l u = record {
  off_flags = inr l;
  off_digest = inl u;
  off_part = λ p. inl (omega (arith, h p));
}

part_field_bounds : (p : Part) → (16 ≤ part_field p) × (part_field p ≤ 40)
part_field_bounds hwid = omega arith
part_field_bounds rootkey = omega arith
part_field_bounds bmpfv = omega arith
part_field_bounds recovery_key = omega arith

wipe_ne : (m : Bytes) (o n i : ℕ) → (i < o) ⊎ (o + n ≤ i) → wipe m o n i ≡ m i
wipe_ne m o n i h = ground arith

shorter : (o n l i : ℕ) → l ≤ n → (i < o) ⊎ (o + n ≤ i) → (i < o) ⊎ (o + l ≤ i)
shorter o n l i short h = ground arith

module _ (b : Bytes) (gbb : ℕ) (behind : Behind b gbb) where
  Keeps-part_offset :
      (m : Bytes) (p : Part) → Keeps b gbb m → part_offset m gbb p ≡ part_offset b gbb p
  Keeps-part_offset m p k = le32_same m b (gbb + part_field p) (λ i l u. k i (
      field-Elsewhere b gbb i behind (omega (arith, part_field_bounds p))
        (omega (arith, part_field_bounds p))))

  Keeps-part_size : (m : Bytes) (p : Part) → Keeps b gbb m → part_size m gbb p ≡ part_size b gbb p
  Keeps-part_size m p k = le32_same m b (gbb + part_field p + 4) (λ i l u. k i (
      field-Elsewhere b gbb i behind (omega (arith, part_field_bounds p))
        (omega (arith, part_field_bounds p))))

  -- A component written anew.
  part-Keeps :
      (m : Bytes) (p : Part) (text : List ℕ)
      → Keeps b gbb m
      → length text ≤ part_size m gbb p
      → Keeps b gbb (
          put_text
            (wipe m (gbb + part_offset m gbb p) (part_size m gbb p))
            (gbb + part_offset m gbb p)
            text)
  part-Keeps m p text k short i e =
      let o = gbb + part_offset m gbb p in
      let same_offset = Keeps-part_offset m p k in
      let same_size = Keeps-part_size m p k in
      let apart : (i < o) ⊎ (o + part_size m gbb p ≤ i) =
        rw (same_offset, same_size) (e.off_part p) in
      put_text_ne (wipe m o (part_size m gbb p)) o text i
        (shorter o (part_size m gbb p) (length text) i short apart)
      ∙ wipe_ne m o (part_size m gbb p) i apart
      ∙ k i e

  import_part-Keeps :
      (outside : Outside) (limit : ℕ) (p : Part) (m : Bytes) (name : List ℕ)
      → Keeps b gbb m
      → Keeps b gbb (import_part outside limit p m gbb name).0
  unfolding import_part
  import_part-Keeps outside limit p m name k =
      option_cases (λ (r : Bytes × Bool). Keeps b gbb r.0) (outside.file name) (λ e. k)
        (λ (text, read) e.
          if_cases (λ (r : Bytes × Bool). Keeps b gbb r.0) (ltb (part_size m gbb p) (length text))
            (λ long. k) (λ short. part-Keeps m p text k (ground arith)))

  digest-Keeps :
      (outside : Outside) (limit : ℕ) (m : Bytes)
      → ((text : List ℕ) → length (outside.sha256 text) ≡ 32)
      → Keeps b gbb m
      → Keeps b gbb (update_hwid_digest outside limit m gbb)
  unfolding update_hwid_digest
  digest-Keeps outside limit m len k =
      if_cases (Keeps b gbb) (ltb (minor_version m gbb) 2) (λ e. k)
        (λ e i at.
          put_text_ne m (gbb + 48) (outside.sha256 (hwid_str limit m gbb)) i
            (ground (arith, at.off_digest, len (hwid_str limit m gbb)))
          ∙ k i at)

  set_hwid-Keeps :
      (outside : Outside) (limit : ℕ) (m : Bytes) (text : List ℕ)
      → ((t : List ℕ) → length (outside.sha256 t) ≡ 32)
      → Keeps b gbb m
      → Keeps b gbb (set_hwid outside limit m gbb text).0
  unfolding set_hwid
  set_hwid-Keeps outside limit m text len k =
      if_cases (λ (r : Bytes × Bool). Keeps b gbb r.0)
        (ltb (part_size m gbb hwid) (length text + 1)) (λ long. k)
        (λ short.
          digest-Keeps outside limit _ len
            (part-Keeps m hwid (text ++ 0 ∷ []) k (ground (arith, length-append text (0 ∷ [])))))

  set_flags-Keeps :
      (outside : Outside) (limit : ℕ) (m : Bytes) (text : List ℕ)
      → Keeps b gbb m
      → Keeps b gbb (set_flags outside limit m gbb text).0
  unfolding set_flags
  set_flags-Keeps outside limit m text k =
      if_cases (λ (r : Bytes × Bool). Keeps b gbb r.0) (outside.strtoul text).1
        (λ read i at.
          put32_ne m (gbb + 12) (u32 (outside.strtoul text).0) i (ground (arith, at.off_flags))
          ∙ k i at)
        (λ bad. k)

  step-Keeps :
      (outside : Outside) (limit : ℕ) (f : Bytes → ℕ → List ℕ → Bytes × Bool)
      (option : Option (List ℕ)) (s : Bytes × Bool)
      → ((m : Bytes) (text : List ℕ) → Keeps b gbb m → Keeps b gbb (f m gbb text).0)
      → Keeps b gbb s.0
      → Keeps b gbb (step outside limit f gbb option s).0
  step-Keeps outside limit f none s h k = k
  step-Keeps outside limit f (some text) s h k = h s.0 text k

  set_all-Keeps :
      (outside : Outside) (limit : ℕ) (r : Request)
      → ((t : List ℕ) → length (outside.sha256 t) ≡ 32)
      → Keeps b gbb (set_all outside limit r b gbb).0
  unfolding set_all
  set_all-Keeps outside limit r len =
      step-Keeps outside limit (import_part outside limit recovery_key) r.opt_recoverykey _
        (import_part-Keeps outside limit recovery_key)
        (step-Keeps outside limit (import_part outside limit bmpfv) r.opt_bmpfv _
          (import_part-Keeps outside limit bmpfv)
          (step-Keeps outside limit (import_part outside limit rootkey) r.opt_rootkey _
            (import_part-Keeps outside limit rootkey)
            (step-Keeps outside limit (set_flags outside limit) r.opt_flags _
              (set_flags-Keeps outside limit)
              (step-Keeps outside limit (set_hwid outside limit) r.opt_hwid (b, true)
                (λ m text k. set_hwid-Keeps outside limit m text len k) (λ i e. refl)))))

find_loop-gbb_at :
    (b : Bytes) (size left i count gbb : ℕ) (found : Option ℕ)
    → ((g : ℕ) → found ≡ some g → gbb_at b size g ≡ true)
    → (find_loop b size left i count found).1 ≡ some gbb
    → gbb_at b size gbb ≡ true
unfolding find_loop
find_loop-gbb_at b size zero i count gbb found h e = h gbb e
find_loop-gbb_at b size (suc left) i count gbb found h e =
    find_loop-gbb_at b size left (i + 4) _ gbb _
      (λ g.
        if_cases (λ (t : Option ℕ). t ≡ some g → gbb_at b size g ≡ true) (gbb_at b size i)
          (λ hit.
            if_cases (λ (t : Option ℕ). t ≡ some g → gbb_at b size g ≡ true) (count == 0)
              (λ first same. let at : i ≡ g = ground arith in rw (← at) hit) (λ later. h g))
          (λ miss. h g))
      e

-- The components of the GBB that is found stand behind the header.
pub find_gbb_header-Behind :
    (b : Bytes) (size gbb : ℕ) → find_gbb_header b size ≡ some gbb → Behind b gbb
unfolding find_gbb_header
find_gbb_header-Behind b size gbb e p =
    let hit =
      find_loop-gbb_at b size (sub64 size 4 / 4 + 1) 0 0 gbb none (λ g n. cc) (ground arith) in
    let valid : futil_valid_gbb_header b gbb (u32 (size - gbb)) ≡ true = ground arith in
    (PartValid-of p
      ((futil_valid_gbb_header-GbbChecks b gbb (u32 (size - gbb))).0 valid)).after_header

-- Set mode writes an image in which no byte is changed but those of the flags, of the digest and of the
-- components of the GBB that it finds.
pub do_set-Elsewhere :
    (outside : Outside) (limit : ℕ) (r : Request) (b b' : Bytes) (size gbb i : ℕ)
    → ((t : List ℕ) → length (outside.sha256 t) ≡ 32)
    → find_gbb_header b size ≡ some gbb
    → do_set outside limit r b size ≡ some b'
    → Elsewhere b gbb i
    → b' i ≡ b i
unfolding do_set
do_set-Elsewhere outside limit r b b' size gbb i len found e at =
    let same : (set_all outside limit r b gbb).0 ≡ b' = ground arith in
    rw (← same)
      (set_all-Keeps b gbb (find_gbb_header-Behind b size gbb found) outside limit r len i at)

-- ===== src/Gbb/SetHwid.antt =====
-- A HWID that is set is read back, with a good digest.
use futility.Prelude.{
  ℕ, zero, suc, ◌+◌, ◌≤◌, ◌<◌, ◌==◌, ◌≡◌, ◌≢◌, refl, arith, ltb, Bool, true, false, List, [], ◌∷◌,
  ◌++◌, length, All, if◌then◌else◌, ◌∙◌, ap, ◌⊎◌, inl, inr, length-append, if_cases, sym,
}
use mathlib.Core.Path.{subst}
use futility.Prelude.Memory.{
  Bytes, put_text, put_text_ne, bytes_at, bytes_at-put_text, bytes_at_same, le16_same, le32_same,
}
use futility.Prelude.Text.{same_text}
use futility.Prelude.Memory.{text_at}
use futility.Gbb.Header.{hwid, part_offset, part_size, minor_version, gbb_header_size}
use futility.Gbb.Set.{
  Outside, wipe, hwid_str, get_hwid, print_hwid_digest, update_hwid_digest, set_hwid,
}

-- A text with a zero behind it is read as a string.
text_at-bytes_at :
    (n : ℕ) (b : Bytes) (o : ℕ) (text : List ℕ)
    → All (λ (c : ℕ). c ≢ 0) text
    → length text < n
    → bytes_at (length (text ++ 0 ∷ [])) b o ≡ text ++ 0 ∷ []
    → text_at n b o ≡ text
unfolding text_at
text_at-bytes_at zero b o text h l e = absurd (omega arith)
text_at-bytes_at (suc n) b o [] h l e = ground arith
text_at-bytes_at (suc n) b o (c ∷ text) h l e =
    let rest = text_at-bytes_at n b (o + 1) text h.1 (omega arith) (ground arith) in
    ground (arith, h.0)

same_text_self : (s : List ℕ) → same_text s s ≡ true
unfolding same_text
same_text_self [] = refl
same_text_self (c ∷ s) = ground (arith, same_text_self s)

print_hwid_digest-true :
    (outside : Outside) (limit : ℕ) (b : Bytes) (gbb : ℕ)
    → (ltb (minor_version b gbb) 2 ≡ false
        → bytes_at 32 b (gbb + 48) ≡ outside.sha256 (hwid_str limit b gbb))
    → print_hwid_digest outside limit b gbb ≡ true
unfolding print_hwid_digest
print_hwid_digest-true outside limit b gbb h =
    if_cases (λ (t : Bool). t ≡ true) (ltb (minor_version b gbb) 2) (λ e. refl)
      (λ e.
        ap (λ (d : List ℕ). same_text d (outside.sha256 (hwid_str limit b gbb))) (h e)
        ∙ same_text_self _)

update_hwid_digest-bytes :
    (outside : Outside) (limit : ℕ) (b : Bytes) (gbb : ℕ)
    → ((text : List ℕ) → length (outside.sha256 text) ≡ 32)
    → ltb (minor_version b gbb) 2 ≡ false
    → bytes_at 32 (update_hwid_digest outside limit b gbb) (gbb + 48)
      ≡ outside.sha256 (hwid_str limit b gbb)
unfolding update_hwid_digest
update_hwid_digest-bytes outside limit b gbb h e =
    let digest = outside.sha256 (hwid_str limit b gbb) in
    ap (λ (m : Bytes). bytes_at 32 m (gbb + 48)) (if_false b (put_text b (gbb + 48) digest) e)
    ∙ subst (λ (n : ℕ). bytes_at n (put_text b (gbb + 48) digest) (gbb + 48) ≡ digest)
        (h (hwid_str limit b gbb)) (bytes_at-put_text b (gbb + 48) digest)
  where
    if_false : {t : Bool} (x y : Bytes) → t ≡ false → (if t then x else y) ≡ y
    if_false x y q = rw q refl

module _ (outside : Outside) (limit : ℕ)
    (sha256-length : (text : List ℕ) → length (outside.sha256 text) ≡ 32) (b : Bytes) (gbb : ℕ)
    (text : List ℕ) (after_header : gbb_header_size ≤ part_offset b gbb hwid)
    (fits : length text < part_size b gbb hwid) (inside : part_size b gbb hwid ≤ limit)
    (no_zero : All (λ (c : ℕ). c ≢ 0) text) where
  -- The image with the text in it, and then with the digest.
  abbrev written : Bytes
  written =
      let o = gbb + part_offset b gbb hwid in
      put_text (wipe b o (part_size b gbb hwid)) o (text ++ 0 ∷ [])

  abbrev digested : Bytes
  digested = update_hwid_digest outside limit written gbb

  set_hwid-digested : set_hwid outside limit b gbb text ≡ (digested, true)
  unfolding set_hwid
  set_hwid-digested = ground arith

  -- The text changes nothing in front of it.
  written-header : (i : ℕ) → i < gbb + 128 → written i ≡ b i
  written-header i l =
      put_text_ne (wipe b (gbb + part_offset b gbb hwid) (part_size b gbb hwid))
        (gbb + part_offset b gbb hwid) (text ++ 0 ∷ []) i (inl (omega arith))
      ∙ ground arith

  -- The digest changes its field only.
  digested-other : (i : ℕ) → (i < gbb + 48) ⊎ (gbb + 80 ≤ i) → digested i ≡ written i
  unfolding update_hwid_digest
  digested-other i h =
      if_cases (λ (m : Bytes). m i ≡ written i) (ltb (minor_version written gbb) 2) (λ e. refl)
        (λ e.
          put_text_ne written (gbb + 48) (outside.sha256 (hwid_str limit written gbb)) i
            (ground (arith, sha256-length (hwid_str limit written gbb))))

  digested-header : (i : ℕ) → i < gbb + 48 → digested i ≡ b i
  digested-header i l = digested-other i (inl l) ∙ written-header i (omega arith)

  -- Where the HWID stands does not change.
  same_place :
      (m : Bytes)
      → ((i : ℕ) → i < gbb + 48 → m i ≡ b i)
      → part_offset m gbb hwid ≡ part_offset b gbb hwid
  same_place m h = le32_same m b (gbb + 16) (λ i l u. h i (omega arith))

  text_bytes :
      (m : Bytes)
      → ((i : ℕ) → gbb + 128 ≤ i → m i ≡ written i)
      → bytes_at (length (text ++ 0 ∷ [])) m (gbb + part_offset b gbb hwid) ≡ text ++ 0 ∷ []
  text_bytes m h =
      let o = gbb + part_offset b gbb hwid in
      bytes_at_same (length (text ++ 0 ∷ [])) m written o (λ i l u. h i (omega arith))
      ∙ bytes_at-put_text (wipe b o (part_size b gbb hwid)) o (text ++ 0 ∷ [])

  hwid_str-text :
      (m : Bytes)
      → ((i : ℕ) → i < gbb + 48 → m i ≡ b i)
      → ((i : ℕ) → gbb + 128 ≤ i → m i ≡ written i)
      → hwid_str limit m gbb ≡ text
  hwid_str-text m h e = rw (same_place m h) (
      text_at-bytes_at limit m (gbb + part_offset b gbb hwid) text no_zero (omega arith)
        (text_bytes m e))

  digested-text : hwid_str limit digested gbb ≡ text
  digested-text =
      hwid_str-text digested digested-header (λ i l. digested-other i (inr (omega arith)))

  written-text : hwid_str limit written gbb ≡ text
  written-text = hwid_str-text written (λ i l. written-header i (omega arith)) (λ i l. refl)

  digested-print_hwid_digest : print_hwid_digest outside limit digested gbb ≡ true
  digested-print_hwid_digest =
      let version : minor_version digested gbb ≡ minor_version written gbb =
        le16_same digested written (gbb + 6) (λ i l u. digested-other i (inl (omega arith))) in
      let same = sym (ap outside.sha256 (digested-text ∙ sym written-text)) in
      print_hwid_digest-true outside limit digested gbb (λ e.
        update_hwid_digest-bytes outside limit written gbb sha256-length
          (sym (ap (λ (v : ℕ). ltb v 2) version) ∙ e)
        ∙ same)

  digested-get_hwid : get_hwid limit digested gbb ≡ text
  digested-get_hwid =
      let size : part_size digested gbb hwid ≡ part_size b gbb hwid =
        le32_same digested b (gbb + 16 + 4) (λ i l u. digested-header i (omega arith)) in
      if_cases (λ (t : List ℕ). t ≡ text) (part_size digested gbb hwid == 0)
        (λ e. absurd (ground (arith, size))) (λ e. digested-text)

  digested-elsewhere :
      (i : ℕ)
      → (i < gbb + 48) ⊎ (gbb + 80 ≤ i)
      → (i < gbb + part_offset b gbb hwid)
        ⊎ (gbb + part_offset b gbb hwid + part_size b gbb hwid ≤ i)
      → digested i ≡ b i
  digested-elsewhere i off_digest off_hwid =
      let o = gbb + part_offset b gbb hwid in
      digested-other i off_digest
      ∙ put_text_ne (wipe b o (part_size b gbb hwid)) o (text ++ 0 ∷ []) i
          (ground (arith, length-append text (0 ∷ [])))
      ∙ ground arith

  -- A HWID that is set, with no zero byte and room for the one behind it, is shown by get mode, its digest
  -- is good, and no byte changes but those of the HWID and of the digest.
  pub set_hwid_lem :
      (b' : Bytes) × (set_hwid outside limit b gbb text ≡ (b', true))
      × (get_hwid limit b' gbb ≡ text)
      × (print_hwid_digest outside limit b' gbb ≡ true)
      × ((i : ℕ)
          → (i < gbb + 48) ⊎ (gbb + 80 ≤ i)
          → (i < gbb + part_offset b gbb hwid)
            ⊎ (gbb + part_offset b gbb hwid + part_size b gbb hwid ≤ i)
          → b' i ≡ b i)
  set_hwid_lem = (
    digested, set_hwid-digested, digested-get_hwid, digested-print_hwid_digest, digested-elsewhere,
  )

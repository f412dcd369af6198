-- ===== src/Gpt/Layout.antt =====
-- What the checks of the entries read: the first 48 bytes of each entry, and five fields of the
-- header. The attributes and the name of an entry lie behind those bytes.
use futility.Prelude.{ℕ, zero, suc, ◌+◌, ◌≤◌, ◌<◌, ◌==◌, ◌&&◌, ◌||◌, ltb, not, Bool}
use futility.Prelude.{if◌then◌else◌, all_below, ◌≡◌, refl, arith, ap, ◌∙◌}
use futility.Prelude.Memory.{le64_same, Bytes, le64}
use futility.Gpt.Entry.{entry_at, same_guid, is_unused_entry}
use futility.Gpt.Check.{check_pair, check_others, check_each, out_of_region}
use futility.Gpt.Check.{first_usable_lba, last_usable_lba, number_of_entries}
use futility.Gpt.Check.{gpt_error_start_lba_overlap, gpt_error_end_lba_overlap}
use futility.Gpt.Check.{gpt_error_dup_guid, gpt_error_out_of_region}

pub all_below_same :
    (n : ℕ) (p q : ℕ → Bool) → ((i : ℕ) → i < n → p i ≡ q i) → all_below n p ≡ all_below n q
unfolding all_below
all_below_same zero p q h = refl
all_below_same (suc n) p q h =
    let ih = all_below_same n p q (λ i l. h i (omega arith)) in
    let last = h n (omega arith) in λ t. if last t then ih t else Bool.false

-- The first `k` entries of two tables agree but for what the checks do not read.
abbrev pub SameLayout : ℕ → Bytes → Bytes → Type 0
SameLayout k b c = (i o : ℕ) → i < k → entry_at i ≤ o → o < entry_at i + 48 → b o ≡ c o

module _ (k : ℕ) (b c : Bytes) (same : SameLayout k b c) where
  same_lba : (i o : ℕ) → i < k → o ≤ 40 → le64 b (entry_at i + o) ≡ le64 c (entry_at i + o)
  same_lba i o h l =
      le64_same b c (entry_at i + o) (λ p lo hi. same i p h (omega arith) (omega arith))

  same_unused : (i : ℕ) → i < k → is_unused_entry b i ≡ is_unused_entry c i
  unfolding is_unused_entry
  same_unused i h =
      all_below_same 16 _ _
        λ o l. ap (λ (x : ℕ). x == 0) (same i (entry_at i + o) h (omega arith) (omega arith))

  same_unique :
      (i j : ℕ)
      → i < k
      → j < k
      → same_guid b (entry_at i + 16) b (entry_at j + 16)
        ≡ same_guid c (entry_at i + 16) c (entry_at j + 16)
  same_unique i j hi hj = all_below_same 16 _ _ λ o l.
      let x = same i (entry_at i + 16 + o) hi (omega arith) (omega arith) in
      let y = same j (entry_at j + 16 + o) hj (omega arith) (omega arith) in λ t. x t == y t

  same_pair : (i j : ℕ) → i < k → j < k → check_pair b i j ≡ check_pair c i j
  unfolding check_pair
  same_pair i j hi hj =
      let si = same_lba i 32 hi (omega arith) in
      let ei = same_lba i 40 hi (omega arith) in
      let sj = same_lba j 32 hj (omega arith) in
      let ej = same_lba j 40 hj (omega arith) in
      let unique = same_unique i j hi hj in
      λ t.
        if not (ltb (si t) (sj t)) && not (ltb (ej t) (si t))
        then gpt_error_start_lba_overlap
        else if not (ltb (ei t) (sj t)) && not (ltb (ej t) (ei t))
        then gpt_error_end_lba_overlap
        else if unique t
        then gpt_error_dup_guid
        else 0

  same_others :
      (i left j : ℕ) → i < k → j + left ≤ k → check_others b i left j ≡ check_others c i left j
  unfolding check_others
  same_others i zero j hi hj = refl
  same_others i (suc left) j hi hj =
      let rest = same_others i left (j + 1) hi (omega arith) in
      let code = same_pair i j hi (omega arith) in
      let unused = same_unused j (omega arith) in
      λ t. if (j == i) || unused t then rest t else if code t == 0 then rest t else code t

  module _ (h g : Bytes) (first : first_usable_lba h ≡ first_usable_lba g)
      (last : last_usable_lba h ≡ last_usable_lba g)
      (number : number_of_entries h ≡ number_of_entries g) (enough : number_of_entries h ≤ k) where
    same_region : (i : ℕ) → i < k → out_of_region h b i ≡ out_of_region g c i
    unfolding out_of_region
    same_region i hi =
        let s = same_lba i 32 hi (omega arith) in
        let e = same_lba i 40 hi (omega arith) in
        λ t. ltb (s t) (first t) || ltb (last t) (e t) || ltb (e t) (s t)

    pub check_each_same :
        (left i : ℕ) → i + left ≤ k → check_each h b left i ≡ check_each g c left i
    unfolding check_each
    check_each_same zero i hi = refl
    check_each_same (suc left) i hi =
        let rest = check_each_same left (i + 1) (omega arith) in
        let unused = same_unused i (omega arith) in
        let region = same_region i (omega arith) in
        let others : check_others b i (number_of_entries h) 0
            ≡ check_others c i (number_of_entries g) 0 =
          same_others i (number_of_entries h) 0 (omega arith) (omega arith)
          ∙ ap (λ (n : ℕ). check_others c i n 0) number in
        λ t.
          if unused t
          then rest t
          else if region t
          then gpt_error_out_of_region
          else if others t == 0
          then rest t
          else others t

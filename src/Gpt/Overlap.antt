-- ===== src/Gpt/Overlap.antt =====
-- What a partition array that CheckEntries accepts looks like.
use futility.Prelude.{
  ℕ, zero, suc, ◌+◌, ◌≤◌, ◌<◌, ◌==◌, ◌/=◌, ◌≡◌, sym, ==_iff, ◌≢◌, ◌⊎◌, inl, inr, refl, true, false,
  ◌↔◌,
}
use futility.Prelude.{Bool, Bool-cases, u32, ◌*◌, ◌||◌, if◌then◌else◌, some, arith}
use futility.Prelude.Memory.{Bytes}
use futility.Gpt.Crc32.{crc32}
use futility.Gpt.Entry.{entry_at, starting_lba, ending_lba, same_guid, is_unused_entry}
use futility.Gpt.Check.{
  gpt_error_crc_corrupted, gpt_error_out_of_region, check_pair, check_others, check_each,
  check_entries, out_of_region,
}
use futility.Gpt.Check.{first_usable_lba, last_usable_lba, number_of_entries, size_of_entry}
use futility.Gpt.Check.{entries_crc32, gpt_success}

-- An entry in use lies in the usable region, and is not empty.
abbrev pub InRegion : Bytes → Bytes → ℕ → Type 0
InRegion h b i =
    (first_usable_lba h ≤ starting_lba b i)
    × (starting_lba b i ≤ ending_lba b i)
    × (ending_lba b i ≤ last_usable_lba h)

-- Two entries share no sector and have different GUIDs.
abbrev pub Separate : Bytes → ℕ → ℕ → Type 0
Separate b i j =
    ((ending_lba b i < starting_lba b j) ⊎ (ending_lba b j < starting_lba b i))
    × (same_guid b (entry_at i + 16) b (entry_at j + 16) ≡ false)

-- What CheckEntries is to show of the header and the entries that it accepts.
abbrev pub EntriesValid : Bytes → Bytes → Type 0
EntriesValid h b =
    (i : ℕ)
    → i < number_of_entries h
    → is_unused_entry b i ≡ false
    → InRegion h b i
      × ((j : ℕ) → j < number_of_entries h → j ≢ i → is_unused_entry b j ≡ false → Separate b i j)

-- A round of a loop that goes on.
round-pass :
    (skip : Bool) (code rest : ℕ)
    → (if skip then rest else if code == 0 then rest else code) ≡ 0
    → (rest ≡ 0) × (skip ≡ false → code ≡ 0)
round-pass skip code rest h = ground arith

check_others-pass :
    (b : Bytes) (i left j k : ℕ)
    → check_others b i left j ≡ 0
    → j ≤ k
    → k < j + left
    → k ≢ i
    → is_unused_entry b k ≡ false
    → check_pair b i k ≡ 0
unfolding check_others
check_others-pass b i zero j k h l m ne used = absurd (omega arith)
check_others-pass b i (suc left) j k h l m ne used =
    let (rest, here) =
      round-pass ((j == i) || is_unused_entry b j) (check_pair b i j)
        (check_others b i left (j + 1)) h in
    elim (Bool-cases (j == k)) [
      | inl e ↦
          let same : k ≡ j = sym ((==_iff j k).0 e) in rw same (here (rw (sym same) (ground arith)))
      | inr e ↦ check_others-pass b i left (j + 1) k rest (ground arith) (omega arith) ne used
    ]

round_each-pass :
    (skip out : Bool) (code rest : ℕ)
    → (if skip
        then rest
        else if out
        then gpt_error_out_of_region
        else if code == 0
        then rest
        else code)
      ≡ 0
    → (rest ≡ 0) × (skip ≡ false → (out ≡ false) × (code ≡ 0))
round_each-pass skip out code rest h = ground arith

check_each-pass :
    (h b : Bytes) (left i k : ℕ)
    → check_each h b left i ≡ 0
    → i ≤ k
    → k < i + left
    → is_unused_entry b k ≡ false
    → (out_of_region h b k ≡ false) × (check_others b k (number_of_entries h) 0 ≡ 0)
unfolding check_each
check_each-pass h b zero i k pass l m used = absurd (omega arith)
check_each-pass h b (suc left) i k pass l m used =
    let (rest, here) =
      round_each-pass (is_unused_entry b i) (out_of_region h b i)
        (check_others b i (number_of_entries h) 0) (check_each h b left (i + 1)) pass in
    elim (Bool-cases (i == k)) [
      | inl e ↦ let same : k ≡ i = sym ((==_iff i k).0 e) in rw same (here (rw (sym same) used))
      | inr e ↦ check_each-pass h b left (i + 1) k rest (ground arith) (omega arith) used
    ]

check_pair-apart :
    (b : Bytes) (i j : ℕ)
    → check_pair b i j ≡ 0
    → check_pair b j i ≡ 0
    → starting_lba b i ≤ ending_lba b i
    → starting_lba b j ≤ ending_lba b j
    → Separate b i j
unfolding check_pair
check_pair-apart b i j p q h k = ground arith

round-go :
    (skip : Bool) (code rest : ℕ)
    → rest ≡ 0
    → (skip ≡ false → code ≡ 0)
    → (if skip then rest else if code == 0 then rest else code) ≡ 0
round-go true code rest h k = h
round-go false code rest h k = ground (arith, k refl)

round_each-go :
    (skip out : Bool) (code rest : ℕ)
    → rest ≡ 0
    → (skip ≡ false → (out ≡ false) × (code ≡ 0))
    → (if skip
        then rest
        else if out
        then gpt_error_out_of_region
        else if code == 0
        then rest
        else code)
      ≡ 0
round_each-go true out code rest h k = h
round_each-go false out code rest h k = let (p, q) = k refl in rw (p, q) h

check_others-go :
    (b : Bytes) (i left j : ℕ)
    → ((k : ℕ) → j ≤ k → k < j + left → k ≢ i → is_unused_entry b k ≡ false → check_pair b i k ≡ 0)
    → check_others b i left j ≡ 0
unfolding check_others
check_others-go b i zero j h = refl
check_others-go b i (suc left) j h =
    round-go ((j == i) || is_unused_entry b j) (check_pair b i j) (check_others b i left (j + 1))
      (check_others-go b i left (j + 1) (λ k l m. h k (omega arith) (omega arith)))
      (λ used. h j (omega arith) (omega arith) (ground arith) (ground arith))

check_each-go :
    (h b : Bytes) (left i : ℕ)
    → ((k : ℕ)
        → i ≤ k
        → k < i + left
        → is_unused_entry b k ≡ false
        → (out_of_region h b k ≡ false) × (check_others b k (number_of_entries h) 0 ≡ 0))
    → check_each h b left i ≡ 0
unfolding check_each
check_each-go h b zero i f = refl
check_each-go h b (suc left) i f =
    round_each-go (is_unused_entry b i) (out_of_region h b i)
      (check_others b i (number_of_entries h) 0) (check_each h b left (i + 1))
      (check_each-go h b left (i + 1) (λ k l m. f k (omega arith) (omega arith)))
      (f i (omega arith) (omega arith))

out_of_region_iff : (h b : Bytes) (i : ℕ) → (out_of_region h b i ≡ false) ↔ InRegion h b i
unfolding out_of_region
out_of_region_iff h b i = ((λ e. ground arith), (λ r. ground arith))

check_pair-Separate :
    (b : Bytes) (i j : ℕ)
    → starting_lba b i ≤ ending_lba b i
    → Separate b i j
    → check_pair b i j ≡ 0
unfolding check_pair
check_pair-Separate b i j h s = ground arith

check_each_iff : (h b : Bytes) → (check_each h b (number_of_entries h) 0 ≡ 0) ↔ EntriesValid h b
check_each_iff h b =
    let n = number_of_entries h in
    (
      (λ pass i l used.
          let (region, others) = check_each-pass h b n 0 i pass (omega arith) (omega arith) used in
          let here = (out_of_region_iff h b i).0 region in
          (
            here,
            λ j m ne used'.
                let (region', others') =
                  check_each-pass h b n 0 j pass (omega arith) (omega arith) used' in
                let there = (out_of_region_iff h b j).0 region' in
                check_pair-apart b i j
                  (check_others-pass b i n 0 j others (omega arith) (omega arith) ne used')
                  (check_others-pass b j n 0 i others' (omega arith) (omega arith) (λ e. ne (sym e))
                    used)
                  here.1 there.1,
          )),
      λ valid. check_each-go h b n 0 (λ i _ l used.
          let (region, apart) = valid i (omega arith) used in
          (
            (out_of_region_iff h b i).1 region,
            check_others-go b i n 0 (λ j _ m ne used'.
                check_pair-Separate b i j region.1 (apart j (omega arith) ne used')),
          )),
    )

crc_first :
    (a c r : ℕ) → ((if a /= c then gpt_error_crc_corrupted else r) ≡ 0) ↔ ((a ≡ c) × (r ≡ 0))
crc_first a c r = ((λ e. ground arith), (λ e. ground arith))

-- CheckEntries accepts exactly the arrays that have the CRC of the header, and where every entry in
-- use lies in the usable region and shares no sector and no GUID with another entry in use.
pub check_entries_iff :
    (h b : Bytes)
    → (check_entries (some b) h ≡ gpt_success) ↔ (
        (crc32 b 0 (u32 (size_of_entry h * number_of_entries h)) ≡ entries_crc32 h)
        × EntriesValid h b)
unfolding check_entries
check_entries_iff h b =
    let (pass, go) = check_each_iff h b in
    let (split, join) =
      crc_first (crc32 b 0 (u32 (size_of_entry h * number_of_entries h))) (entries_crc32 h)
        (check_each h b (number_of_entries h) 0) in
    ((λ e. let (c, r) = split e in (c, pass r)), λ (c, v). join (c, go v))

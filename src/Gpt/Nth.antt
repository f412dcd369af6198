-- ===== src/Gpt/Nth.antt =====
-- GptFindNthEntry finds the entry of a type by its rank.
use futility.Prelude.{
  ℕ, zero, suc, ◌+◌, ◌-◌, ◌≤◌, ◌<◌, ◌==◌, ◌≡◌, refl, arith, true, false, Bool-cases,
}
use futility.Prelude.{Option, none, some, inl, inr, if◌then◌else◌, add-zero_eq}
use mathlib.Core.Path.{subst}
use futility.Prelude.Memory.{Bytes}
use futility.Gpt.Entry.{entry_at, same_guid}
use futility.Gpt.Check.{number_of_entries}
use futility.Gpt.Update.{find_nth, gpt_find_nth_entry}

-- The number of entries of the type in front of the entry `k`.
pub rank : Bytes → Bytes → ℕ → ℕ
rank b guid zero = 0
rank b guid (suc k) = if same_guid b (entry_at k) guid 0 then suc (rank b guid k) else rank b guid k

-- The entry that was asked for, or too few of them.
abbrev pub IsNth : Bytes → Bytes → ℕ → ℕ → Option ℕ → Type 0
IsNth b guid total n none = rank b guid total ≤ n
IsNth b guid total n (some k) =
    (k < total) × (same_guid b (entry_at k) guid 0 ≡ true) × (rank b guid k ≡ n)

rank_hit :
    (b guid : Bytes) (i : ℕ)
    → same_guid b (entry_at i) guid 0 ≡ true
    → rank b guid (i + 1) ≡ suc (rank b guid i)
unfolding rank
rank_hit b guid i e =
    subst (λ (k : ℕ). rank b guid k ≡ suc (rank b guid i)) {x = suc i} (omega arith) (rw e refl)

rank_miss :
    (b guid : Bytes) (i : ℕ)
    → same_guid b (entry_at i) guid 0 ≡ false
    → rank b guid (i + 1) ≡ rank b guid i
unfolding rank
rank_miss b guid i e =
    subst (λ (k : ℕ). rank b guid k ≡ rank b guid i) {x = suc i} (omega arith) (rw e refl)

-- From the entry `i` on, with `m` still to come.
find_nth-IsNth :
    (b guid : Bytes) (left i m n total : ℕ)
    → i + left ≡ total
    → rank b guid i + m ≡ n
    → IsNth b guid total n (find_nth b guid left i m)
unfolding find_nth
find_nth-IsNth b guid zero i m n total e r =
    subst (λ (t : ℕ). rank b guid t ≤ n) (add-zero_eq i total e) (omega arith)
find_nth-IsNth b guid (suc left) i m n total e r =
    elim (Bool-cases (same_guid b (entry_at i) guid 0)) [
      | inr miss ↦ rw miss (
          find_nth-IsNth b guid left (i + 1) m n total (omega arith)
            (omega (arith, rank_miss b guid i miss)))
      | inl hit ↦ elim (Bool-cases (m == 0)) [
        | inl last ↦ rw (hit, last) (omega arith, hit, ground arith)
        | inr more ↦
            rw (hit, more)
              (find_nth-IsNth b guid left (i + 1) (m - 1) n total (omega arith)
                (ground (arith, rank_hit b guid i hit)))
      ]
    ]

-- GptFindNthEntry gives the entry of the type that has exactly `n` entries of the type in front of
-- it, and none exactly where the table has at most `n` of them.
pub gpt_find_nth_entry-IsNth :
    (header b guid : Bytes) (n : ℕ)
    → IsNth b guid (number_of_entries header) n (gpt_find_nth_entry header b guid n)
unfolding gpt_find_nth_entry rank
gpt_find_nth_entry-IsNth header b guid n =
    find_nth-IsNth b guid (number_of_entries header) 0 n n (number_of_entries header) (omega arith)
      (omega arith)

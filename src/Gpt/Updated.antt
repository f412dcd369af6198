-- ===== src/Gpt/Updated.antt =====
-- What an update of GptUpdateKernelWithEntry does to the attributes of an entry, as steps of a state
-- machine.
use futility.Prelude.{ℕ, ◌+◌, ◌-◌, ◌%◌, ◌≤◌, ◌<◌, ◌==◌, ◌/=◌, ltb, if◌then◌else◌, Bool}
use futility.Prelude.{◌≡◌, ◌≢◌, ◌⊎◌, inl, inr, refl, arith, true, false, Bool-cases, ◌∙◌}
use mathlib.Core.Path.{subst, sym}
use futility.Prelude.Memory.{Bytes}
use futility.Gpt.Entry.{entry_at, get_entry_successful, get_entry_tries, get_entry_priority}
use futility.Gpt.Attributes.{set_entry_successful, set_entry_priority, set_entry_tries}
use futility.Gpt.Setters.{AttributesAre, set_entry_priority-AttributesAre}
use futility.Gpt.Setters.{set_entry_tries-AttributesAre, set_entry_successful-AttributesAre}
use futility.Gpt.Setters.{set_entry_priority_ne, set_entry_tries_ne, set_entry_successful_ne}
use futility.Gpt.Setters.{get_entry_tries_lem}
use futility.Gpt.Update.{UpdateType, entry_try, entry_bad, entry_reset, entry_invalid}
use futility.Gpt.Update.{update_entry, give_up}

-- The attributes of a kernel.
pub record Attributes : Type 0 where
  pub successful : ℕ
  pub tries : ℕ
  pub priority : ℕ

abbrev pub attributes : Bytes → ℕ → Attributes
attributes b i = record {
  successful = get_entry_successful b i;
  tries = get_entry_tries b i;
  priority = get_entry_priority b i;
}

abbrev pub dead : Attributes
dead = record { successful = 0; tries = 0; priority = 0 }

-- The transitions of the state machine. The flag says whether the table is written back.
pub data Updates : UpdateType → Attributes → Attributes → Bool → Type 0 where
  try_booted : (a : Attributes) → a.successful ≢ 0 → Updates entry_try a a false
  try_counts :
      (a : Attributes)
      → a.successful ≡ 0
      → 1 < a.tries
      → Updates entry_try a (record a { tries = a.tries - 1 }) true
  try_last : (a : Attributes) → a.successful ≡ 0 → a.tries ≤ 1 → Updates entry_try a dead true
  bad_booted : (a : Attributes) → a.successful ≢ 0 → Updates entry_bad a a false
  bad_dies : (a : Attributes) → a.successful ≡ 0 → Updates entry_bad a dead true
  resets :
      (a : Attributes)
      → Updates entry_reset a (record { successful = 1; tries = 15; priority = 1 }) true
  invalidates : (a : Attributes) → Updates entry_invalid a dead true

-- No byte changes but the attributes of the entry `i`.
abbrev pub OnlyAttributes : ℕ → Bytes → Bytes → Type 0
OnlyAttributes i b c = (o : ℕ) → (o < entry_at i + 54) ⊎ (entry_at i + 56 ≤ o) → c o ≡ b o

attributes_are :
    {b : Bytes} {i s t p : ℕ}
    → AttributesAre b i s t p
    → attributes b i ≡ record { successful = s; tries = t; priority = p }
attributes_are h =
    λ j. record { successful = h.successful_is j; tries = h.tries_is j; priority = h.priority_is j }

module _ (b : Bytes) (i : ℕ) where
  both_set :
      (t p : ℕ)
      → attributes (set_entry_priority (set_entry_tries b i t) i p) i
        ≡ record { successful = get_entry_successful b i; tries = t % 16; priority = p % 16 }
  both_set t p =
      let first = set_entry_tries-AttributesAre b i t in
      let second = set_entry_priority-AttributesAre (set_entry_tries b i t) i p in
      attributes_are (record {
        successful_is = second.successful_is ∙ first.successful_is;
        tries_is = second.tries_is ∙ first.tries_is;
        priority_is = second.priority_is;
      })

  all_set :
      (t p s : ℕ)
      → attributes (set_entry_successful (set_entry_priority (set_entry_tries b i t) i p) i s) i
        ≡ record { successful = if s == 0 then 0 else 1; tries = t % 16; priority = p % 16 }
  all_set t p s =
      let first = set_entry_tries-AttributesAre b i t in
      let second = set_entry_priority-AttributesAre (set_entry_tries b i t) i p in
      let third =
        set_entry_successful-AttributesAre (set_entry_priority (set_entry_tries b i t) i p) i s in
      attributes_are (record {
        successful_is = third.successful_is;
        tries_is = third.tries_is ∙ second.tries_is ∙ first.tries_is;
        priority_is = third.priority_is ∙ second.priority_is;
      })

  counted :
      1 < get_entry_tries b i
      → attributes (set_entry_tries b i (get_entry_tries b i - 1)) i ≡ record {
        successful = get_entry_successful b i;
        tries = get_entry_tries b i - 1;
        priority = get_entry_priority b i;
      }
  counted more =
      let set = set_entry_tries-AttributesAre b i (get_entry_tries b i - 1) in
      attributes_are (record {
        successful_is = set.successful_is;
        tries_is = set.tries_is ∙ omega (arith, get_entry_tries_lem b i);
        priority_is = set.priority_is;
      })

-- What an update of the entry `i` does.
abbrev pub Outcome : UpdateType → Bytes → ℕ → Bytes × Bool → Type 0
Outcome t b i (c, modified) =
    Updates t (attributes b i) (attributes c i) modified × OnlyAttributes i b c

abbrev moved_to :
    (t : UpdateType) (b c : Bytes) (i : ℕ) (a : Attributes) (modified : Bool)
    → attributes c i ≡ a
    → Updates t (attributes b i) a modified
    → Updates t (attributes b i) (attributes c i) modified
moved_to t b c i a modified e u = subst (λ x. Updates t (attributes b i) x modified) (sym e) u

only_both :
    (b : Bytes) (i t p : ℕ) → OnlyAttributes i b (set_entry_priority (set_entry_tries b i t) i p)
only_both b i t p o h =
    set_entry_priority_ne (set_entry_tries b i t) i p o h ∙ set_entry_tries_ne b i t o h

only_all :
    (b : Bytes) (i t p s : ℕ)
    → OnlyAttributes i b (set_entry_successful (set_entry_priority (set_entry_tries b i t) i p) i s)
only_all b i t p s o h =
    set_entry_successful_ne (set_entry_priority (set_entry_tries b i t) i p) i s o h
    ∙ only_both b i t p o h

-- The attributes of a kernel that is given up.
dies :
    (b : Bytes) (i : ℕ)
    → get_entry_successful b i ≡ 0
    → attributes (set_entry_priority (set_entry_tries b i 0) i 0) i ≡ dead
dies b i e = both_set b i 0 0 ∙ λ j. record { successful = e j; tries = 0; priority = 0 }

-- A kernel that failed is given up, by either update.
gives_up :
    (t : UpdateType) (b : Bytes) (i : ℕ)
    → (get_entry_successful b i /= 0) ≡ false
    → Updates t (attributes b i) dead true
    → Outcome t b i (give_up b i)
unfolding give_up
gives_up t b i failed u =
    rw failed (moved_to t b _ i dead true (dies b i (ground arith)) u, only_both b i 0 0)

kept_alive :
    (b : Bytes) (i : ℕ)
    → (get_entry_successful b i /= 0) ≡ true
    → Outcome entry_bad b i (give_up b i)
unfolding give_up
kept_alive b i booted = rw booted (bad_booted (attributes b i) (ground arith), λ o h. refl)

give_up-Outcome : (b : Bytes) (i : ℕ) → Outcome entry_bad b i (give_up b i)
give_up-Outcome b i = elim (Bool-cases (get_entry_successful b i /= 0)) [
  | inl booted ↦ kept_alive b i booted
  | inr failed ↦ gives_up entry_bad b i failed (bad_dies (attributes b i) (ground arith))
]

update_try :
    (b : Bytes) (i : ℕ)
    → (get_entry_successful b i /= 0) ≡ false
    → Outcome entry_try b i (update_entry entry_try b i)
unfolding update_entry
update_try b i failed = elim (Bool-cases (ltb 1 (get_entry_tries b i))) [
  | inl more ↦
      rw (failed, more)
        (
          moved_to entry_try b _ i _ true (counted b i (ground arith))
              (try_counts (attributes b i) (ground arith) (ground arith)),
          set_entry_tries_ne b i _,
        )
  | inr last ↦
      rw (failed, last)
        (gives_up entry_try b i failed (try_last (attributes b i) (ground arith) (ground arith)))
]

-- What an update of an entry does: the attributes go by the transitions of the state machine, the
-- entries are written back exactly where it says so, and no other byte of the entries changes.
pub update_entry-Outcome : (t : UpdateType) (b : Bytes) (i : ℕ) → Outcome t b i (update_entry t b i)
unfolding update_entry
update_entry-Outcome entry_try b i = elim (Bool-cases (get_entry_successful b i /= 0)) [
  | inl booted ↦ rw booted (try_booted (attributes b i) (ground arith), λ o h. refl)
  | inr failed ↦ update_try b i failed
]
update_entry-Outcome entry_bad b i = give_up-Outcome b i
update_entry-Outcome entry_reset b i = (
  moved_to entry_reset b _ i _ true (all_set b i 15 1 1) (resets (attributes b i)),
  only_all b i 15 1 1,
)
update_entry-Outcome entry_invalid b i = (
  moved_to entry_invalid b _ i _ true (all_set b i 0 0 0) (invalidates (attributes b i)),
  only_all b i 0 0 0,
)

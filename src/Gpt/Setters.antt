-- ===== src/Gpt/Setters.antt =====
-- Each setter of an attribute sets its field, and leaves the other two, and all other bytes, alone.
use futility.Prelude.{ℕ, ◌+◌, ◌*◌, ◌%◌, ◌^◌, ◌<◌, ◌≤◌, ◌==◌, if◌then◌else◌, ◌<<<◌, sym, ap}
use mathlib.Core.Path.{ap₂}
use futility.Prelude.{◌≡◌, ◌⊎◌, ◌∙◌, arith, bit_and, bit_or, Bool-cases, inl, inr}
use futility.Prelude.Memory.{Bytes}
use futility.Gpt.Entry.{entry_at, gpt_att, get_entry_successful, get_entry_priority}
use futility.Gpt.Entry.{get_entry_tries}
use futility.Gpt.Attributes.{put_att, set_entry_successful, set_entry_priority, set_entry_tries}
use futility.Gpt.Fields.{priority_of, tries_of, successful_of, masked_priority, masked_tries}
use futility.Gpt.Fields.{masked_successful, tries_value, mixed, priority-priority, tries-priority}
use futility.Gpt.Fields.{successful-priority, priority-tries, tries-tries, successful-tries}
use futility.Gpt.Fields.{successful-set, tries-set, priority-set, successful-cleared}
use futility.Gpt.Fields.{tries-cleared, priority-cleared}

gpt_att-put_att : (b : Bytes) (i v : ℕ) → gpt_att (put_att b i v) i ≡ v % 2 ^ 16
unfolding put_att
gpt_att-put_att b i v = ground arith

-- No byte changes but those two.
pub put_att_ne :
    (b : Bytes) (i v o : ℕ) → (o < entry_at i + 54) ⊎ (entry_at i + 56 ≤ o) → put_att b i v o ≡ b o
unfolding put_att
put_att_ne b i v o h = ground arith

-- The getters read the fields.
pub get_entry_priority_lem :
    (b : Bytes) (i : ℕ) → get_entry_priority b i ≡ priority_of (gpt_att b i)
unfolding get_entry_priority
get_entry_priority_lem b i = omega (arith, masked_priority (gpt_att b i))

pub get_entry_tries_lem : (b : Bytes) (i : ℕ) → get_entry_tries b i ≡ tries_of (gpt_att b i)
unfolding get_entry_tries
get_entry_tries_lem b i = masked_tries (gpt_att b i)

pub get_entry_successful_lem :
    (b : Bytes) (i : ℕ) → get_entry_successful b i ≡ successful_of (gpt_att b i)
unfolding get_entry_successful
get_entry_successful_lem b i = masked_successful (gpt_att b i)

-- What the getters read of an entry.
pub record AttributesAre (b : Bytes) (i successful tries priority : ℕ) : Type 0 where
  pub successful_is : get_entry_successful b i ≡ successful
  pub tries_is : get_entry_tries b i ≡ tries
  pub priority_is : get_entry_priority b i ≡ priority

AttributesAre-put_att :
    (b : Bytes) (i v s t p : ℕ)
    → successful_of v ≡ s
    → tries_of v ≡ t
    → priority_of v ≡ p
    → AttributesAre (put_att b i v) i s t p
AttributesAre-put_att b i v s t p e f g =
    let att = gpt_att-put_att b i v in
    record {
      successful_is = get_entry_successful_lem (put_att b i v) i ∙ omega (arith, att);
      tries_is = get_entry_tries_lem (put_att b i v) i ∙ omega (arith, att);
      priority_is = get_entry_priority_lem (put_att b i v) i ∙ omega (arith, att);
    }

-- `gpt_att = gpt_att & mask`, and then `gpt_att |= value`.
abbrev masked : Bytes → ℕ → ℕ → Bytes
masked b i mask = put_att b i (bit_and (gpt_att b i) mask)

mixed_value :
    (b : Bytes) (i mask value v : ℕ)
    → value ≡ v
    → bit_or (gpt_att (masked b i mask) i) value ≡ mixed (gpt_att b i) mask v
mixed_value b i mask value v e = ap₂ bit_or (gpt_att-put_att b i (bit_and (gpt_att b i) mask)) e

module _ (b : Bytes) (i : ℕ) where
  pub set_entry_priority-AttributesAre :
      (p : ℕ)
      → AttributesAre
          (set_entry_priority b i p)
          i
          (get_entry_successful b i)
          (get_entry_tries b i)
          (p % 16)
  unfolding set_entry_priority
  set_entry_priority-AttributesAre p =
      let value : bit_and (p <<< 0) 0xf ≡ p % 16 = omega (arith, masked_priority (p <<< 0)) in
      let e = mixed_value b i 0xfff0 (bit_and (p <<< 0) 0xf) (p % 16) value in
      AttributesAre-put_att (masked b i 0xfff0) i _ _ _ _
        (ap successful_of e
          ∙ successful-priority (gpt_att b i) p
          ∙ sym (get_entry_successful_lem b i))
        (ap tries_of e ∙ tries-priority (gpt_att b i) p ∙ sym (get_entry_tries_lem b i))
        (ap priority_of e ∙ priority-priority (gpt_att b i) p)

  pub set_entry_tries-AttributesAre :
      (t : ℕ)
      → AttributesAre
          (set_entry_tries b i t)
          i
          (get_entry_successful b i)
          (t % 16)
          (get_entry_priority b i)
  unfolding set_entry_tries
  set_entry_tries-AttributesAre t =
      let e = mixed_value b i 0xff0f (bit_and (t <<< 4) 0xf0) (t % 16 * 16) (tries_value t) in
      AttributesAre-put_att (masked b i 0xff0f) i _ _ _ _
        (ap successful_of e ∙ successful-tries (gpt_att b i) t ∙ sym (get_entry_successful_lem b i))
        (ap tries_of e ∙ tries-tries (gpt_att b i) t)
        (ap priority_of e ∙ priority-tries (gpt_att b i) t ∙ sym (get_entry_priority_lem b i))

  pub set_entry_successful-AttributesAre :
      (s : ℕ)
      → AttributesAre
          (set_entry_successful b i s)
          i
          (if s == 0 then 0 else 1)
          (get_entry_tries b i)
          (get_entry_priority b i)
  unfolding set_entry_successful
  set_entry_successful-AttributesAre s = elim (Bool-cases (s == 0)) [
    | inl e ↦ rw e (
        AttributesAre-put_att b i _ _ _ _ (successful-cleared (gpt_att b i))
          (tries-cleared (gpt_att b i) ∙ sym (get_entry_tries_lem b i))
          (priority-cleared (gpt_att b i) ∙ sym (get_entry_priority_lem b i)))
    | inr e ↦ rw e (
        AttributesAre-put_att b i _ _ _ _ (successful-set (gpt_att b i))
          (tries-set (gpt_att b i) ∙ sym (get_entry_tries_lem b i))
          (priority-set (gpt_att b i) ∙ sym (get_entry_priority_lem b i)))
  ]

  -- No byte changes outside the attributes.
  pub set_entry_priority_ne :
      (p o : ℕ) → (o < entry_at i + 54) ⊎ (entry_at i + 56 ≤ o) → set_entry_priority b i p o ≡ b o
  unfolding set_entry_priority
  set_entry_priority_ne p o h =
      put_att_ne (masked b i 0xfff0) i _ o h ∙ put_att_ne b i (bit_and (gpt_att b i) 0xfff0) o h

  pub set_entry_tries_ne :
      (t o : ℕ) → (o < entry_at i + 54) ⊎ (entry_at i + 56 ≤ o) → set_entry_tries b i t o ≡ b o
  unfolding set_entry_tries
  set_entry_tries_ne t o h =
      put_att_ne (masked b i 0xff0f) i _ o h ∙ put_att_ne b i (bit_and (gpt_att b i) 0xff0f) o h

  pub set_entry_successful_ne :
      (s o : ℕ) → (o < entry_at i + 54) ⊎ (entry_at i + 56 ≤ o) → set_entry_successful b i s o ≡ b o
  unfolding set_entry_successful
  set_entry_successful_ne s o h = put_att_ne b i _ o h

-- ===== src/Verify/Inside.antt =====
-- VerifyMemberInside of vboot_common.c, against what it means in numbers that do not wrap. A
-- pointer is an offset in the buffer, of 64 bits.
use futility.Prelude.{ℕ, ◌+◌, ◌-◌, ◌^◌, ◌≤◌, ◌<◌, ltb, if◌then◌else◌, ◌≡◌, ◌↔◌, arith, sub64}
use futility.Prelude.{true, false, Bool, u64}

abbrev pub offset_of : ℕ → ℕ → ℕ
offset_of base ptr = sub64 ptr base

-- The result of the function is 0 where this is `true`. The sums are uint64_t sums.
unfoldable pub verify_member_inside : ℕ → ℕ → ℕ → ℕ → ℕ → ℕ → Bool
verify_member_inside parent parent_size member member_size data_offset data_size =
    let end = offset_of parent member in
    if ltb parent_size end
    then false
    else if ltb (2 ^ 64 - 1 - end) member_size
    then false
    else if ltb parent_size (u64 (end + member_size))
    then false
    else if ltb (2 ^ 64 - 1 - end) data_offset
    then false
    else let begin = u64 (end + data_offset) in
      if ltb parent_size begin
      then false
      else if ltb (2 ^ 64 - 1 - begin) data_size
      then false
      else if ltb parent_size (u64 (begin + data_size))
      then false
      else true

-- The member and its data lie in the parent, as unbounded numbers.
pub record IsInside (parent parent_size member member_size data_offset data_size : ℕ) : Type 0 where
  pub after : parent ≤ member
  pub struct_fits : member + member_size ≤ parent + parent_size
  pub data_fits : member + data_offset + data_size ≤ parent + parent_size

-- For a parent that does not wrap round the address space, VerifyMemberInside accepts exactly the
-- members that lie inside with their data: no sum in it wraps unnoticed.
pub verify_member_inside_iff :
    (parent parent_size member member_size data_offset data_size : ℕ)
    → parent + parent_size < 2 ^ 64
    → member < 2 ^ 64
    → member_size < 2 ^ 64
    → data_offset < 2 ^ 64
    → data_size < 2 ^ 64
    → (verify_member_inside parent parent_size member member_size data_offset data_size ≡ true)
      ↔ IsInside parent parent_size member member_size data_offset data_size
unfolding verify_member_inside
verify_member_inside_iff p ps m ms o s h hm hms ho hs = (λ e. ground arith, λ i. ground arith)

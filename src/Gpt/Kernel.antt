-- ===== src/Gpt/Kernel.antt =====
-- The choice of a kernel partition: GptNextKernelEntry of libvboot_util/cgptlib/cgptlib.c, on the
-- primary header and entries that GptInit has checked and repaired. An index of -1 is `none`.
use futility.Prelude.{
  ℕ, zero, suc, ◌+◌, ◌-◌, ◌==◌, ◌/=◌, ltb, ◌&&◌, ◌||◌, not, if◌then◌else◌, Bool, Option, none, some,
}
use futility.Prelude.{sub64, u64}
use futility.Prelude.Memory.{Bytes}
use futility.Gpt.Entry.{starting_lba, ending_lba, is_kernel_entry, get_entry_successful}
use futility.Gpt.Entry.{get_entry_tries, get_entry_priority}
use futility.Gpt.Check.{number_of_entries}

-- The fields of GptData that the choice goes by.
pub record KernelState : Type 0 where
  pub current_kernel : Option ℕ
  pub current_priority : ℕ

-- What GptInit sets.
abbrev pub gpt_init : KernelState
gpt_init = record { current_kernel = none; current_priority = 999 }

-- A kernel that booted once, or has tries left.
unfoldable pub is_bootable : Bytes → ℕ → Bool
is_bootable b i =
    is_kernel_entry b i && ((get_entry_successful b i /= 0) || (get_entry_tries b i /= 0))

-- The first loop: a kernel of the priority `prio`, in `left` entries from `i` on.
unfoldable pub same_priority : Bytes → ℕ → ℕ → ℕ → Option ℕ
same_priority b prio zero i = none
same_priority b prio (suc left) i =
    let rest = same_priority b prio left (i + 1) in
    if not (is_bootable b i) then rest else if get_entry_priority b i == prio then some i else rest

-- The second loop's test of the entry `i`.
abbrev pub is_better : Bytes → ℕ → ℕ → ℕ → Bool
is_better b limit i new_prio =
    is_bootable b i && ltb (get_entry_priority b i) limit && ltb new_prio (get_entry_priority b i)

-- The second loop, with new_kernel and new_prio.
unfoldable pub lower_priority : Bytes → ℕ → ℕ → ℕ → Option ℕ → ℕ → Option ℕ × ℕ
lower_priority b limit zero i new_kernel new_prio = (new_kernel, new_prio)
lower_priority b limit (suc left) i new_kernel new_prio =
    let better = is_better b limit i new_prio in
    lower_priority b limit left (i + 1) (if better then some i else new_kernel)
      (if better then get_entry_priority b i else new_prio)

-- The scan in front, for a kernel found before.
unfoldable pub scan_same : Bytes → Bytes → KernelState → Option ℕ
scan_same h b s = elim s.current_kernel [
  | none ↦ none
  | some c ↦ same_priority b s.current_priority (number_of_entries h - (c + 1)) (c + 1)
]

-- The choice, given what the first scan found.
unfoldable pub choose : Bytes → Bytes → KernelState → Option ℕ → KernelState
choose h b s (some i) = record s { current_kernel = some i }
choose h b s none =
    let (kernel, prio) = lower_priority b s.current_priority (number_of_entries h) 0 none 0 in
    record { current_kernel = kernel; current_priority = prio }

-- The partition's first sector and its size.
abbrev pub sectors : Bytes → Option ℕ → Option (ℕ × ℕ)
sectors b none = none
sectors b (some i) = some (starting_lba b i, u64 (sub64 (ending_lba b i) (starting_lba b i) + 1))

-- The second result is `none` for GPT_ERROR_NO_VALID_KERNEL.
unfoldable pub gpt_next_kernel_entry : Bytes → Bytes → KernelState → KernelState × Option (ℕ × ℕ)
gpt_next_kernel_entry h b s =
    let s' = choose h b s (scan_same h b s) in (s', sectors b s'.current_kernel)

-- ===== src/Gpt/Update.antt =====
-- GptUpdateKernelWithEntry, GptUpdateKernelEntry and GptFindNthEntry of
-- libvboot_util/cgptlib/cgptlib.c. An entry is an index in the primary entries.
use futility.Prelude.{
  ℕ, zero, suc, ◌+◌, ◌-◌, ◌==◌, ◌/=◌, ltb, not, if◌then◌else◌, Bool, true, false,
}
use futility.Prelude.{Option, none, some}
use futility.Prelude.Memory.{Bytes}
use futility.Gpt.Entry.{entry_at, same_guid, is_kernel_entry, get_entry_successful, get_entry_tries}
use futility.Gpt.Check.{number_of_entries, gpt_success}
use futility.Gpt.Attributes.{set_entry_successful, set_entry_priority, set_entry_tries}
use futility.Gpt.Repair.{GptState, gpt_modified}

abbrev pub gpt_error_invalid_update_type : ℕ
gpt_error_invalid_update_type = 6

pub data UpdateType : Type 0 where
  entry_try entry_bad entry_reset entry_invalid : UpdateType

-- The values of the enumeration, and any other number.
abbrev pub update_type_of : ℕ → Option UpdateType
update_type_of n =
    if n == 1
    then some entry_try
    else if n == 2
    then some entry_bad
    else if n == 3
    then some entry_reset
    else if n == 4
    then some entry_invalid
    else none

-- The case GPT_UPDATE_ENTRY_BAD: the entries, and whether they are modified.
unfoldable pub give_up : Bytes → ℕ → Bytes × Bool
give_up b i =
    if get_entry_successful b i /= 0
    then (b, false)
    else (set_entry_priority (set_entry_tries b i 0) i 0, true)

-- The switch; GPT_UPDATE_ENTRY_TRY falls through where the tries are used up.
unfoldable pub update_entry : UpdateType → Bytes → ℕ → Bytes × Bool
update_entry entry_try b i =
    if get_entry_successful b i /= 0
    then (b, false)
    else if ltb 1 (get_entry_tries b i)
    then (set_entry_tries b i (get_entry_tries b i - 1), true)
    else give_up b i
update_entry entry_bad b i = give_up b i
update_entry entry_reset b i =
    (set_entry_successful (set_entry_priority (set_entry_tries b i 15) i 1) i 1, true)
update_entry entry_invalid b i =
    (set_entry_successful (set_entry_priority (set_entry_tries b i 0) i 0) i 0, true)

-- What follows the switch.
abbrev pub store_entries : GptState → Bytes × Bool → Option (ℕ × GptState)
store_entries g (b, false) = some (gpt_success, g)
store_entries g (b, true) =
    elim (gpt_modified (record g { tables = record g.tables { primary_entries = some b } })) [
      | none ↦ none
      | some g' ↦ some (gpt_success, g')
    ]

unfoldable pub gpt_update_kernel_with_entry : GptState → ℕ → ℕ → Option (ℕ × GptState)
gpt_update_kernel_with_entry g i update_type = elim g.tables.primary_entries [
  | none ↦ none
  | some b ↦
      if not (is_kernel_entry b i)
      then some (gpt_error_invalid_update_type, g)
      else elim (update_type_of update_type) [
        | none ↦ some (gpt_error_invalid_update_type, g)
        | some t ↦ store_entries g (update_entry t b i)
      ]
]

unfoldable pub gpt_update_kernel_entry : GptState → ℕ → Option (ℕ × GptState)
gpt_update_kernel_entry g update_type = elim g.kernel.current_kernel [
  | none ↦ some (gpt_error_invalid_update_type, g)
  | some i ↦ gpt_update_kernel_with_entry g i update_type
]

-- The loop of GptFindNthEntry, over `left` entries from `i` on.
unfoldable pub find_nth : Bytes → Bytes → ℕ → ℕ → ℕ → Option ℕ
find_nth b guid zero i n = none
find_nth b guid (suc left) i n =
    let rest = find_nth b guid left (i + 1) (n - 1) in
    let skip = find_nth b guid left (i + 1) n in
    if same_guid b (entry_at i) guid 0 then if n == 0 then some i else rest else skip

unfoldable pub gpt_find_nth_entry : Bytes → Bytes → Bytes → ℕ → Option ℕ
gpt_find_nth_entry header b guid n = find_nth b guid (number_of_entries header) 0 n

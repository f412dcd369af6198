-- ===== src/NvStorage/Fields.antt =====
-- The layout of the block that vboot_nvstorage.c keeps: each parameter is a run of bits of one
-- byte, but for the kernel field, which is a little-endian word.
use futility.Prelude.{ℕ, ◌+◌, ◌*◌, ◌/◌, ◌%◌, ◌^◌, ◌/=◌, ltb, if◌then◌else◌}
use futility.Prelude.{Option, none, some}
use futility.NvStorage.Defs.{VbNvParam, write}
use futility.NvStorage.Defs.{
  firmware_settings_reset, kernel_settings_reset, debug_reset_mode, dev_boot_usb, dev_boot_legacy,
  dev_boot_signed_only, disable_dev_request, oprom_needed, clear_tpm_owner_request,
  clear_tpm_owner_done, backup_nvram_request, fw_try_next, fw_tried, fw_prev_tried, try_b_count,
  fw_try_count, recovery_request, recovery_subcode, localization_index, fw_result, fw_prev_result,
  kernel_field, max_param,
}

-- `bits byte low size`: the values below `size`, in units of `low`, of byte `byte`.
pub data Place : Type 0 where
  bits : ℕ → ℕ → ℕ → Place
  word nowhere : Place

abbrev pub place : VbNvParam → Place
place firmware_settings_reset = bits 0 32 2
place kernel_settings_reset = bits 0 16 2
place debug_reset_mode = bits 1 128 2
place dev_boot_usb = bits 4 1 2
place dev_boot_legacy = bits 4 4 2
place dev_boot_signed_only = bits 4 2 2
place disable_dev_request = bits 1 64 2
place oprom_needed = bits 1 32 2
place clear_tpm_owner_request = bits 5 1 2
place clear_tpm_owner_done = bits 5 2 2
place backup_nvram_request = bits 1 16 2
place fw_try_next = bits 7 8 2
place fw_tried = bits 7 4 2
place fw_prev_tried = bits 7 64 2
place try_b_count = bits 1 1 16
place fw_try_count = bits 1 1 16
place recovery_request = bits 2 1 256
place recovery_subcode = bits 6 1 256
place localization_index = bits 3 1 256
place fw_result = bits 7 1 4
place fw_prev_result = bits 7 16 4
place kernel_field = word
place max_param = nowhere

-- The number kept at a place.
abbrev pub value_at : (ℕ → ℕ) → Place → Option ℕ
value_at raw (bits byte low size) = some (raw byte / low % size)
value_at raw word = some (raw 11 + raw 12 * 2 ^ 8 + raw 13 * 2 ^ 16 + raw 14 * 2 ^ 24)
value_at raw nowhere = none

-- The block with another number at a place, and all else as it was.
abbrev pub replace : (ℕ → ℕ) → Place → ℕ → Option (ℕ → ℕ)
replace raw (bits byte low size) v =
    some (write raw byte (raw byte / (low * size) * (low * size) + v * low + raw byte % low))
replace raw word v = some (
    write (write (write (write raw 11 (v % 256)) 12 (v / 2 ^ 8 % 256)) 13 (v / 2 ^ 16 % 256)) 14
      (v / 2 ^ 24 % 256))
replace raw nowhere v = none

-- What a request to store `v` stores: out of range values are mapped as the comments of the
-- header say.
abbrev pub clip : VbNvParam → ℕ → ℕ
clip try_b_count v = if ltb 15 v then 15 else v
clip fw_try_count v = if ltb 15 v then 15 else v
clip recovery_request v = if ltb 255 v then 1 else v
clip localization_index v = if ltb 255 v then 0 else v
clip recovery_subcode v = v % 256
clip kernel_field v = v % 2 ^ 32
clip fw_result v = if ltb 3 v then 0 else v
clip fw_prev_result v = if ltb 3 v then 0 else v
clip max_param v = v
clip _ v = if v /= 0 then 1 else 0

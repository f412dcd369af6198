-- ===== src/NvStorage/Defs.antt =====
-- VbNvContext and the operations of vboot_nvstorage.c, statement by statement. `raw i` is byte `i`
-- of the block; the code reads and writes only `i < 16`.
use futility.Prelude.{ℕ, ◌-◌, ◌==◌, ◌/=◌, ltb, if◌then◌else◌}
use futility.Prelude.{Bool, true, false, ◌||◌, Option, none, some, List, [], ◌∷◌}
use futility.Prelude.{bit_and, bit_or, ◌<<<◌, ◌>>>◌, u8}
use futility.NvStorage.Crc.{crc8}

pub record VbNvContext : Type 0 where
  pub raw : ℕ → ℕ
  pub raw_changed : Bool
  pub regenerate_crc : Bool

-- `max_param` stands for any value that is not an enumerator.
pub data VbNvParam : Type 0 where
  firmware_settings_reset kernel_settings_reset debug_reset_mode try_b_count : VbNvParam
  fw_try_count recovery_request localization_index kernel_field : VbNvParam
  dev_boot_usb dev_boot_legacy dev_boot_signed_only disable_dev_request : VbNvParam
  oprom_needed clear_tpm_owner_request clear_tpm_owner_done : VbNvParam
  recovery_subcode backup_nvram_request fw_try_next fw_tried fw_result : VbNvParam
  fw_prev_tried fw_prev_result max_param : VbNvParam

abbrev pub write : (ℕ → ℕ) → ℕ → ℕ → ℕ → ℕ
write raw i v = λ j. if j == i then v else raw j

-- `raw[i] |= mask` and `raw[i] &= ~mask` on a byte.
abbrev pub or_byte : (ℕ → ℕ) → ℕ → ℕ → ℕ → ℕ
or_byte raw i mask = write raw i (u8 (bit_or (raw i) mask))

abbrev pub clear_byte : (ℕ → ℕ) → ℕ → ℕ → ℕ → ℕ
clear_byte raw i mask = write raw i (bit_and (raw i) (255 - mask))

-- The bytes under the CRC, `raw[0..CRC_OFFSET)`.
abbrev pub block : (ℕ → ℕ) → List ℕ
block raw =
    raw 0
    ∷ raw 1
    ∷ raw 2
    ∷ raw 3
    ∷ raw 4
    ∷ raw 5
    ∷ raw 6
    ∷ raw 7
    ∷ raw 8
    ∷ raw 9
    ∷ raw 10
    ∷ raw 11
    ∷ raw 12
    ∷ raw 13
    ∷ raw 14
    ∷ []

-- VbNvSetup
unfoldable pub setup : VbNvContext → VbNvContext
setup c =
    if (bit_and (c.raw 0) 0xC0 /= 0x40) || (crc8 (block c.raw) /= c.raw 15)
    then record {
      raw = write (λ _. 0) 0 (bit_or (bit_or 0x40 0x20) 0x10);
      raw_changed = false;
      regenerate_crc = true;
    }
    else record c { raw_changed = false; regenerate_crc = false }

-- VbNvTeardown
unfoldable pub teardown : VbNvContext → VbNvContext
teardown c =
    if c.regenerate_crc
    then record {
      raw = write c.raw 15 (crc8 (block c.raw));
      raw_changed = true;
      regenerate_crc = false;
    }
    else c

-- `raw[i] & mask ? 1 : 0`
abbrev pub flag : (ℕ → ℕ) → ℕ → ℕ → Option ℕ
flag raw i mask = some (if bit_and (raw i) mask /= 0 then 1 else 0)

-- VbNvGet: the value stored through `dest`, or `none` for the result 1.
unfoldable pub get : (ℕ → ℕ) → VbNvParam → Option ℕ
get raw firmware_settings_reset = flag raw 0 0x20
get raw kernel_settings_reset = flag raw 0 0x10
get raw debug_reset_mode = flag raw 1 0x80
get raw try_b_count = some (bit_and (raw 1) 0x0F)
get raw fw_try_count = some (bit_and (raw 1) 0x0F)
get raw recovery_request = some (raw 2)
get raw recovery_subcode = some (raw 6)
get raw localization_index = some (raw 3)
get raw kernel_field =
    some (bit_or (bit_or (bit_or (raw 11) (raw 12 <<< 8)) (raw 13 <<< 16)) (raw 14 <<< 24))
get raw dev_boot_usb = flag raw 4 0x01
get raw dev_boot_legacy = flag raw 4 0x04
get raw dev_boot_signed_only = flag raw 4 0x02
get raw disable_dev_request = flag raw 1 0x40
get raw oprom_needed = flag raw 1 0x20
get raw clear_tpm_owner_request = flag raw 5 0x01
get raw clear_tpm_owner_done = flag raw 5 0x02
get raw backup_nvram_request = flag raw 1 0x10
get raw fw_try_next = flag raw 7 0x08
get raw fw_tried = flag raw 7 0x04
get raw fw_result = some (bit_and (raw 7) 0x03)
get raw fw_prev_tried = flag raw 7 0x40
get raw fw_prev_result = some (bit_and (raw 7) 0x30 >>> 4)
get raw max_param = none

-- `if (value) raw[i] |= mask; else raw[i] &= ~mask;`
abbrev pub put_flag : (ℕ → ℕ) → ℕ → ℕ → ℕ → Option (ℕ → ℕ)
put_flag raw i mask value = some (if value /= 0 then or_byte raw i mask else clear_byte raw i mask)

-- `raw[i] &= ~mask; raw[i] |= bits;`
abbrev pub put_bits : (ℕ → ℕ) → ℕ → ℕ → ℕ → Option (ℕ → ℕ)
put_bits raw i mask bits = some (or_byte (clear_byte raw i mask) i bits)

-- The switch of VbNvSet: the new bytes, or `none` for the result 1.
unfoldable pub put : (ℕ → ℕ) → VbNvParam → ℕ → Option (ℕ → ℕ)
put raw firmware_settings_reset value = put_flag raw 0 0x20 value
put raw kernel_settings_reset value = put_flag raw 0 0x10 value
put raw debug_reset_mode value = put_flag raw 1 0x80 value
put raw try_b_count value = put_bits raw 1 0x0F (u8 (if ltb 0x0F value then 0x0F else value))
put raw fw_try_count value = put_bits raw 1 0x0F (u8 (if ltb 0x0F value then 0x0F else value))
put raw recovery_request value = some (write raw 2 (u8 (if ltb 0xFF value then 0x01 else value)))
put raw recovery_subcode value = some (write raw 6 (u8 value))
put raw localization_index value = some (write raw 3 (u8 (if ltb 0xFF value then 0 else value)))
put raw kernel_field value = some (
    write (write (write (write raw 11 (u8 value)) 12 (u8 (value >>> 8))) 13 (u8 (value >>> 16))) 14
      (u8 (value >>> 24)))
put raw dev_boot_usb value = put_flag raw 4 0x01 value
put raw dev_boot_legacy value = put_flag raw 4 0x04 value
put raw dev_boot_signed_only value = put_flag raw 4 0x02 value
put raw disable_dev_request value = put_flag raw 1 0x40 value
put raw oprom_needed value = put_flag raw 1 0x20 value
put raw clear_tpm_owner_request value = put_flag raw 5 0x01 value
put raw clear_tpm_owner_done value = put_flag raw 5 0x02 value
put raw backup_nvram_request value = put_flag raw 1 0x10 value
put raw fw_try_next value = put_flag raw 7 0x08 value
put raw fw_tried value = put_flag raw 7 0x04 value
put raw fw_result value = put_bits raw 7 0x03 (u8 (if ltb 0x03 value then 0 else value))
put raw fw_prev_tried value = put_flag raw 7 0x40 value
put raw fw_prev_result value = put_bits raw 7 0x30 (u8 (if ltb 0x03 value then 0 else value) <<< 4)
put raw max_param value = none

-- `0 == VbNvGet(context, param, &current) && current == value`
abbrev pub holds : Option ℕ → ℕ → Bool
holds none value = false
holds (some current) value = current == value

-- VbNvSet: the new context and the result.
unfoldable pub nv_set : VbNvContext → VbNvParam → ℕ → VbNvContext × ℕ
nv_set c param value =
    if holds (get c.raw param) value then (c, 0) else elim (put c.raw param value) [
      | none ↦ (c, 1)
      | some raw' ↦ (record c { raw = raw'; regenerate_crc = true }, 0)
    ]

-- ===== src/NvStorage/Access.antt =====
-- VbNvGet and the switch of VbNvSet read and write exactly the places of `Fields`.
use futility.Prelude.{ℕ, ◌+◌, ◌*◌, ◌^◌, ◌<◌, ◌/=◌, ◌≡◌, refl, arith, ap, some, inl, inr}
use futility.Prelude.{if◌then◌else◌, Bool-cases}
use futility.Prelude.Bits.{bit_or-shifted}
use futility.NvStorage.Defs.{VbNvParam, flag, put_flag, get, put}
use futility.NvStorage.Fields.{bits, place, value_at, replace, clip}
use futility.NvStorage.Bytes.{
  flag_bit, clear_bit, or_bit, put_low_nibble, put_low_pair, put_high_pair,
}
use futility.NvStorage.Bytes.{and_low_nibble, and_low_pair, and_high_pair}
use futility.NvStorage.Defs.{
  firmware_settings_reset, kernel_settings_reset, debug_reset_mode, dev_boot_usb, dev_boot_legacy,
  dev_boot_signed_only, disable_dev_request, oprom_needed, clear_tpm_owner_request,
  clear_tpm_owner_done, backup_nvram_request, fw_try_next, fw_tried, fw_prev_tried, try_b_count,
  fw_try_count, recovery_request, recovery_subcode, localization_index, fw_result, fw_prev_result,
  kernel_field, max_param,
}

abbrev pub IsBytes : (ℕ → ℕ) → Type 0
IsBytes raw = (i : ℕ) → raw i < 256

module _ (raw : ℕ → ℕ) (i k : ℕ) where
  flag_lem : raw i < 256 → k < 8 → flag raw i (2 ^ k) ≡ value_at raw (bits i (2 ^ k) 2)
  flag_lem h kh = ap some (flag_bit k (raw i) kh h)

  put_flag_lem :
      (v : ℕ)
      → raw i < 256
      → k < 8
      → put_flag raw i (2 ^ k) v ≡ replace raw (bits i (2 ^ k) 2) (if v /= 0 then 1 else 0)
  put_flag_lem v h kh = elim (Bool-cases (v /= 0)) [
    | inl set ↦ rw (set, or_bit k (raw i) kh h)
    | inr clear ↦ rw (clear, clear_bit k (raw i) kh h)
  ]

pub get-value_at : (raw : ℕ → ℕ) (p : VbNvParam) → IsBytes raw → get raw p ≡ value_at raw (place p)
unfolding get
get-value_at raw firmware_settings_reset h = flag_lem raw 0 5 (h 0) (omega arith)
get-value_at raw kernel_settings_reset h = flag_lem raw 0 4 (h 0) (omega arith)
get-value_at raw debug_reset_mode h = flag_lem raw 1 7 (h 1) (omega arith)
get-value_at raw dev_boot_usb h = flag_lem raw 4 0 (h 4) (omega arith)
get-value_at raw dev_boot_legacy h = flag_lem raw 4 2 (h 4) (omega arith)
get-value_at raw dev_boot_signed_only h = flag_lem raw 4 1 (h 4) (omega arith)
get-value_at raw disable_dev_request h = flag_lem raw 1 6 (h 1) (omega arith)
get-value_at raw oprom_needed h = flag_lem raw 1 5 (h 1) (omega arith)
get-value_at raw clear_tpm_owner_request h = flag_lem raw 5 0 (h 5) (omega arith)
get-value_at raw clear_tpm_owner_done h = flag_lem raw 5 1 (h 5) (omega arith)
get-value_at raw backup_nvram_request h = flag_lem raw 1 4 (h 1) (omega arith)
get-value_at raw fw_try_next h = flag_lem raw 7 3 (h 7) (omega arith)
get-value_at raw fw_tried h = flag_lem raw 7 2 (h 7) (omega arith)
get-value_at raw fw_prev_tried h = flag_lem raw 7 6 (h 7) (omega arith)
get-value_at raw try_b_count h = ground (arith, h 1, and_low_nibble (raw 1))
get-value_at raw fw_try_count h = ground (arith, h 1, and_low_nibble (raw 1))
get-value_at raw recovery_request h = ground (arith, h 2)
get-value_at raw recovery_subcode h = ground (arith, h 6)
get-value_at raw localization_index h = ground (arith, h 3)
get-value_at raw fw_result h = ground (arith, h 7, and_low_pair (raw 7))
get-value_at raw fw_prev_result h = ground (arith, h 7, and_high_pair (raw 7))
get-value_at raw kernel_field h = ground (
  arith,
  h 11,
  h 12,
  h 13,
  h 14,
  bit_or-shifted 8 (raw 11) (raw 12),
  bit_or-shifted 16 (raw 11 + raw 12 * 2 ^ 8) (raw 13),
  bit_or-shifted 24 (raw 11 + raw 12 * 2 ^ 8 + raw 13 * 2 ^ 16) (raw 14),
)
get-value_at raw max_param h = refl

pub put-replace :
    (raw : ℕ → ℕ) (p : VbNvParam) (v : ℕ)
    → IsBytes raw
    → v < 2 ^ 32
    → put raw p v ≡ replace raw (place p) (clip p v)
unfolding put
put-replace raw firmware_settings_reset v h vh = put_flag_lem raw 0 5 v (h 0) (omega arith)
put-replace raw kernel_settings_reset v h vh = put_flag_lem raw 0 4 v (h 0) (omega arith)
put-replace raw debug_reset_mode v h vh = put_flag_lem raw 1 7 v (h 1) (omega arith)
put-replace raw dev_boot_usb v h vh = put_flag_lem raw 4 0 v (h 4) (omega arith)
put-replace raw dev_boot_legacy v h vh = put_flag_lem raw 4 2 v (h 4) (omega arith)
put-replace raw dev_boot_signed_only v h vh = put_flag_lem raw 4 1 v (h 4) (omega arith)
put-replace raw disable_dev_request v h vh = put_flag_lem raw 1 6 v (h 1) (omega arith)
put-replace raw oprom_needed v h vh = put_flag_lem raw 1 5 v (h 1) (omega arith)
put-replace raw clear_tpm_owner_request v h vh = put_flag_lem raw 5 0 v (h 5) (omega arith)
put-replace raw clear_tpm_owner_done v h vh = put_flag_lem raw 5 1 v (h 5) (omega arith)
put-replace raw backup_nvram_request v h vh = put_flag_lem raw 1 4 v (h 1) (omega arith)
put-replace raw fw_try_next v h vh = put_flag_lem raw 7 3 v (h 7) (omega arith)
put-replace raw fw_tried v h vh = put_flag_lem raw 7 2 v (h 7) (omega arith)
put-replace raw fw_prev_tried v h vh = put_flag_lem raw 7 6 v (h 7) (omega arith)
put-replace raw try_b_count v h vh =
    ground (arith, h 1, put_low_nibble (clip try_b_count v) (raw 1))
put-replace raw fw_try_count v h vh =
    ground (arith, h 1, put_low_nibble (clip fw_try_count v) (raw 1))
put-replace raw recovery_request v h vh = ground (arith, h 2)
put-replace raw recovery_subcode v h vh = ground (arith, h 6)
put-replace raw localization_index v h vh = ground (arith, h 3)
put-replace raw fw_result v h vh = ground (arith, h 7, put_low_pair (clip fw_result v) (raw 7))
put-replace raw fw_prev_result v h vh =
    ground (arith, h 7, put_high_pair (clip fw_prev_result v) (raw 7))
put-replace raw kernel_field v h vh = ground arith
put-replace raw max_param v h vh = refl

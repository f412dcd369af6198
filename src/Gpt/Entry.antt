-- ===== src/Gpt/Entry.antt =====
-- Partition entries (GptEntry of libvboot_util/firmware/include/gpt.h) in an array of 128-byte
-- entries, and their attributes, from libvboot_util/cgptlib/cgptlib_internal.c.
use futility.Prelude.{ℕ, ◌+◌, ◌*◌, ◌==◌, ◌>>>◌, Bool, List, [], ◌∷◌, all_below}
use futility.Prelude.{bit_and}
use futility.Prelude.Memory.{Bytes, le16, le64, memcmp_eq}

-- `entries + i`
abbrev pub entry_at : ℕ → ℕ
entry_at i = 128 * i

abbrev pub starting_lba : Bytes → ℕ → ℕ
starting_lba b i = le64 b (entry_at i + 32)

abbrev pub ending_lba : Bytes → ℕ → ℕ
ending_lba b i = le64 b (entry_at i + 40)

abbrev pub gpt_att : Bytes → ℕ → ℕ
gpt_att b i = le16 b (entry_at i + 54)

-- `memcmp` of two GUIDs is 0.
abbrev pub same_guid : Bytes → ℕ → Bytes → ℕ → Bool
same_guid a o b p = all_below 16 (λ k. a (o + k) == b (p + k))

unfoldable pub is_unused_entry : Bytes → ℕ → Bool
is_unused_entry b i = all_below 16 (λ k. b (entry_at i + k) == 0)

abbrev pub chromeos_kernel : List ℕ
chromeos_kernel =
    0x5d ∷ 0x2a ∷ 0x3a ∷ 0xfe ∷ 0x32 ∷ 0x4f ∷ 0xa7 ∷ 0x41 ∷ 0xb7 ∷ 0x25 ∷ 0xac ∷ 0xcc ∷ 0x32 ∷ 0x85
    ∷ 0xa3 ∷ 0x09 ∷ []

unfoldable pub is_kernel_entry : Bytes → ℕ → Bool
is_kernel_entry b i = memcmp_eq b (entry_at i) chromeos_kernel

-- The masks are 0xf, 0xf0 and 0x100 in the last 16 bits of the attributes.
unfoldable pub get_entry_successful : Bytes → ℕ → ℕ
get_entry_successful b i = bit_and (gpt_att b i) 0x100 >>> 8

unfoldable pub get_entry_priority : Bytes → ℕ → ℕ
get_entry_priority b i = bit_and (gpt_att b i) 0xf >>> 0

unfoldable pub get_entry_tries : Bytes → ℕ → ℕ
get_entry_tries b i = bit_and (gpt_att b i) 0xf0 >>> 4

-- ===== src/Gpt/Attributes.antt =====
-- The setters of the attributes of an entry, from libvboot_util/cgptlib/cgptlib_internal.c. gpt_att
-- is a uint16_t, of which ~MASK keeps the other bits.
use futility.Prelude.{ℕ, ◌+◌, ◌==◌, ◌<<<◌, if◌then◌else◌, bit_and, bit_or}
use futility.Prelude.Memory.{Bytes, put16}
use futility.Gpt.Entry.{entry_at, gpt_att}

unfoldable pub put_att : Bytes → ℕ → ℕ → Bytes
put_att b i att = put16 b (entry_at i + 54) att

unfoldable pub set_entry_successful : Bytes → ℕ → ℕ → Bytes
set_entry_successful b i successful =
    put_att b i
      (if successful == 0 then bit_and (gpt_att b i) 0xfeff else bit_or (gpt_att b i) 0x100)

unfoldable pub set_entry_priority : Bytes → ℕ → ℕ → Bytes
set_entry_priority b i priority =
    let cleared = put_att b i (bit_and (gpt_att b i) 0xfff0) in
    put_att cleared i (bit_or (gpt_att cleared i) (bit_and (priority <<< 0) 0xf))

unfoldable pub set_entry_tries : Bytes → ℕ → ℕ → Bytes
set_entry_tries b i tries =
    let cleared = put_att b i (bit_and (gpt_att b i) 0xff0f) in
    put_att cleared i (bit_or (gpt_att cleared i) (bit_and (tries <<< 4) 0xf0))

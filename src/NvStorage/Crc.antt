-- ===== src/NvStorage/Crc.antt =====
-- Crc8 of libvboot_util/firmware/crc8.c.
use futility.Prelude.{ℕ, zero, suc, ◌/=◌, List, [], ◌∷◌, bit_and, bit_xor}
use futility.Prelude.{◌>>>◌, ◌<<<◌, u32, u8, if◌then◌else◌}

-- One round of the inner loop, on an `unsigned` of 32 bits.
crc8_bit : ℕ → ℕ
crc8_bit crc = u32 ((if bit_and crc 0x8000 /= 0 then bit_xor crc (0x1070 <<< 3) else crc) <<< 1)

crc8_bits : ℕ → ℕ → ℕ
crc8_bits zero crc = crc
crc8_bits (suc i) crc = crc8_bits i (crc8_bit crc)

crc8_bytes : List ℕ → ℕ → ℕ
crc8_bytes [] crc = crc
crc8_bytes (b ∷ bytes) crc = crc8_bytes bytes (crc8_bits 8 (bit_xor crc (b <<< 8)))

unfoldable pub crc8 : List ℕ → ℕ
unfolding crc8_bytes crc8_bits crc8_bit
crc8 bytes = u8 (crc8_bytes bytes 0 >>> 8)

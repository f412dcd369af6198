-- ===== src/Verify/PublicKey.antt =====
-- VbPublicKey, 32 bytes: key_offset, key_size, algorithm, key_version.
use futility.Prelude.{ℕ, ◌+◌, u64}
use futility.Prelude.Memory.{Bytes, le64}

abbrev pub key_offset : Bytes → ℕ → ℕ
key_offset b key = le64 b key

abbrev pub key_size : Bytes → ℕ → ℕ
key_size b key = le64 b (key + 8)

abbrev pub algorithm : Bytes → ℕ → ℕ
algorithm b key = le64 b (key + 16)

abbrev pub key_version : Bytes → ℕ → ℕ
key_version b key = le64 b (key + 24)

-- GetPublicKeyDataC
abbrev pub key_data : Bytes → ℕ → ℕ
key_data b key = u64 (key + key_offset b key)

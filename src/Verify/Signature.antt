-- ===== src/Verify/Signature.antt =====
-- VbSignature, 24 bytes: sig_offset, sig_size, data_size.
use futility.Prelude.{ℕ, ◌+◌, u64}
use futility.Prelude.Memory.{Bytes, le64}

abbrev pub sig_offset : Bytes → ℕ → ℕ
sig_offset b sig = le64 b sig

abbrev pub sig_size : Bytes → ℕ → ℕ
sig_size b sig = le64 b (sig + 8)

abbrev pub data_size : Bytes → ℕ → ℕ
data_size b sig = le64 b (sig + 16)

-- GetSignatureDataC
abbrev pub sig_data : Bytes → ℕ → ℕ
sig_data b sig = u64 (sig + sig_offset b sig)

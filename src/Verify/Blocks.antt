-- ===== src/Verify/Blocks.antt =====
-- KeyBlockVerify, VerifyFirmwarePreamble and VerifyKernelPreamble of vboot_common.c, each check and
-- each early return in its order. A structure stands at an offset in a buffer.
use futility.Prelude.{ℕ, ◌+◌, ltb, ◌==◌, ◌/=◌, Bool, true, false, ◌&&◌, not}
use futility.Prelude.{Option, none, some, List, [], ◌∷◌, if◌then◌else◌, zero, suc}
use futility.Prelude.Memory.{Bytes, le32, le64, memcmp_eq}
use futility.Verify.Crypto.{Crypto, RsaKey}
use futility.Verify.Signature
use futility.Verify.Defs.{verify_public_key_inside, verify_signature_inside, public_key_to_rsa}
use futility.Verify.Defs.{verify_data}

pub data VbootError : Type 0 where
  success key_block_invalid key_block_signature key_block_hash public_key_invalid : VbootError
  preamble_invalid preamble_signature shared_data_invalid : VbootError

-- "CHROMEOS"
abbrev pub key_block_magic : List ℕ
key_block_magic = b'C' ∷ b'H' ∷ b'R' ∷ b'O' ∷ b'M' ∷ b'E' ∷ b'O' ∷ b'S' ∷ []

-- SafeMemcmp returns 0: the first `n` bytes agree.
unfoldable pub safe_memcmp_eq : ℕ → Bytes → ℕ → Bytes → ℕ → Bool
safe_memcmp_eq zero a i b j = true
safe_memcmp_eq (suc n) a i b j = if a i == b j then safe_memcmp_eq n a (i + 1) b (j + 1) else false

abbrev pub sha512_digest_algorithm : ℕ
sha512_digest_algorithm = 2

-- VbKeyBlockHeader: magic, major version at 8, size at 16, signature at 24, checksum at 48, data
-- key at 80.
abbrev pub key_block_size : Bytes → ℕ → ℕ
key_block_size b block = le64 b (block + 16)

-- The end of KeyBlockVerify, for the signature or checksum at `sig`.
unfoldable pub key_block_signed : Bytes → ℕ → ℕ → VbootError
key_block_signed b block sig =
    if ltb (Signature.data_size b sig) 112
    then key_block_invalid
    else if not (verify_public_key_inside b block (key_block_size b block) (block + 80))
    then key_block_invalid
    else if not (verify_public_key_inside b block (Signature.data_size b sig) (block + 80))
    then key_block_invalid
    else success

-- The checks of the header and of the place of its signature, with which VerifyFirmwarePreamble and
-- VerifyKernelPreamble begin, for a header of `header_size` bytes.
unfoldable pub preamble_inside : Bytes → ℕ → ℕ → ℕ → Bool
preamble_inside b preamble size header_size =
    let preamble_size = le64 b preamble in
    if ltb size header_size
    then false
    else if le32 b (preamble + 32) /= 2
    then false
    else if ltb size preamble_size
    then false
    else verify_signature_inside b preamble preamble_size (preamble + 8)

-- The checks that VerifyFirmwarePreamble makes before it uses the key: it alone compares the signed
-- size with the size of the preamble.
unfoldable pub preamble_header_valid : Bytes → ℕ → ℕ → Bool
preamble_header_valid b preamble size =
    if not (preamble_inside b preamble size 104)
    then false
    else not (ltb (le64 b preamble) (Signature.data_size b (preamble + 8)))

module _ (crypto : Crypto) where
  -- The branch `if (hash_only)`.
  unfoldable pub key_block_check_hash : Bytes → ℕ → VbootError
  key_block_check_hash b block =
      let sig = block + 48 in
      if not (verify_signature_inside b block (key_block_size b block) sig)
      then key_block_invalid
      else if Signature.sig_size b sig /= 64
      then key_block_invalid
      else if ltb (key_block_size b block) (Signature.data_size b sig)
      then key_block_invalid
      else if not (
          safe_memcmp_eq 64
            (crypto.digest b block (Signature.data_size b sig) sha512_digest_algorithm) 0 b
            (Signature.sig_data b sig))
      then key_block_hash
      else key_block_signed b block sig

  -- The other branch, with the public key at offset `at` of the buffer `key`.
  unfoldable pub key_block_check_signature : Bytes → ℕ → ℕ → Bytes → ℕ → VbootError
  key_block_check_signature b block size key at =
      let sig = block + 24 in
      if not (verify_signature_inside b block (key_block_size b block) sig)
      then key_block_invalid
      else elim (public_key_to_rsa key at) [
        | none ↦ public_key_invalid
        | some rsa ↦
            if ltb (key_block_size b block) (Signature.data_size b sig)
            then key_block_invalid
            else if not (verify_data crypto b block size sig rsa)
            then key_block_signature
            else key_block_signed b block sig
      ]

  -- The public key is `none` for a NULL pointer.
  unfoldable pub key_block_verify : Bytes → ℕ → ℕ → Option (Bytes × ℕ) → Bool → VbootError
  key_block_verify b block size key hash_only =
      if ltb size 112
      then key_block_invalid
      else if not (memcmp_eq b block key_block_magic)
      then key_block_invalid
      else if le32 b (block + 8) /= 2
      then key_block_invalid
      else if ltb size (key_block_size b block)
      then key_block_invalid
      else if hash_only
      then key_block_check_hash b block
      else elim key [
        | none ↦ public_key_invalid
        | some (k, at) ↦ key_block_check_signature b block size k at
      ]

  -- VbFirmwarePreambleHeader: size, signature at 8, versions at 32 and 36, kernel subkey at 48,
  -- body signature at 80, flags at 104. `sizeof` is 108; that of version 2.0 is 104.
  unfoldable pub verify_firmware_preamble : Bytes → ℕ → ℕ → RsaKey → VbootError
  verify_firmware_preamble b preamble size key =
      let sig = preamble + 8 in
      if not (preamble_header_valid b preamble size)
      then preamble_invalid
      else if not (verify_data crypto b preamble size sig key)
      then preamble_signature
      else if ltb (Signature.data_size b sig) 108
      then preamble_invalid
      else if not (verify_signature_inside b preamble (Signature.data_size b sig) (preamble + 80))
      then preamble_invalid
      else if not (verify_public_key_inside b preamble (Signature.data_size b sig) (preamble + 48))
      then preamble_invalid
      else if ltb 0 (le32 b (preamble + 36)) && ltb size 108
      then preamble_invalid
      else success

  -- VbKernelPreambleHeader: size, signature at 8, versions at 32 and 36, body signature at 72,
  -- vmlinuz header at 96 and 104, flags at 112. `sizeof` is 116.
  unfoldable pub verify_kernel_preamble : Bytes → ℕ → ℕ → RsaKey → VbootError
  verify_kernel_preamble b preamble size key =
      let sig = preamble + 8 in
      let minor = le32 b (preamble + 36) in
      if not (preamble_inside b preamble size 116)
      then preamble_invalid
      else if not (verify_data crypto b preamble size sig key)
      then preamble_signature
      else if ltb (Signature.data_size b sig) 116
      then preamble_invalid
      else if not (verify_signature_inside b preamble (Signature.data_size b sig) (preamble + 72))
      then preamble_invalid
      else if ltb 0 minor && (minor == 1) && ltb size 112
      then preamble_invalid
      else if ltb 0 minor && (minor == 2) && ltb size 116
      then preamble_invalid
      else success

-- ===== src/Verify/Laws.antt =====
-- What an accepted key, preamble or key block is: exactly which bytes are signed, and that all that
-- the callers read of it lies inside them.
use futility.Prelude.{ℕ, ◌+◌, ◌^◌, ◌≤◌, ◌<◌, ◌≡◌, ◌↔◌, arith, true}
use futility.Prelude.Memory.{Bytes, IsBytes, le32, le64, le64-lt}
use futility.Verify.Crypto.{Crypto, RsaKey, siglen, num_algorithms}
use futility.Verify.PublicKey
use futility.Verify.Signature
use futility.Verify.Inside.{IsInside, verify_member_inside_iff}
use futility.Verify.Defs.{verify_public_key_inside, verify_signature_inside}
use futility.Verify.Defs.{verify_data, rsa_verify_binary}
use futility.Verify.Blocks.{
  preamble_header_valid, preamble_inside, success, verify_firmware_preamble, verify_kernel_preamble,
}

abbrev pub SignatureInside : Bytes → ℕ → ℕ → ℕ → Type 0
SignatureInside b parent parent_size sig =
    IsInside parent parent_size sig 24 (Signature.sig_offset b sig) (Signature.sig_size b sig)

abbrev pub PublicKeyInside : Bytes → ℕ → ℕ → ℕ → Type 0
PublicKeyInside b parent parent_size key =
    IsInside parent parent_size key 32 (PublicKey.key_offset b key) (PublicKey.key_size b key)

module _ (b : Bytes) (parent size member : ℕ) (bytes : IsBytes b) where
  pub SignatureInside-iff :
      parent + size < 2 ^ 64
      → member < 2 ^ 64
      → (verify_signature_inside b parent size member ≡ true) ↔ SignatureInside b parent size member
  unfolding verify_signature_inside
  SignatureInside-iff h m =
      verify_member_inside_iff parent size member 24 (Signature.sig_offset b member)
        (Signature.sig_size b member) h m (omega arith) (le64-lt b member bytes)
        (le64-lt b (member + 8) bytes)

  pub PublicKeyInside-iff :
      parent + size < 2 ^ 64
      → member < 2 ^ 64
      → (verify_public_key_inside b parent size member ≡ true)
        ↔ PublicKeyInside b parent size member
  unfolding verify_public_key_inside
  PublicKeyInside-iff h m =
      verify_member_inside_iff parent size member 32 (PublicKey.key_offset b member)
        (PublicKey.key_size b member) h m (omega arith) (le64-lt b member bytes)
        (le64-lt b (member + 8) bytes)

-- The RSA signature at `sig` is one of the bytes from `at` on, by `key`, as many as it says.
pub record IsSigned (crypto : Crypto) (b : Bytes) (at size sig : ℕ) (key : RsaKey) : Type 0 where
  pub known : key.algorithm < num_algorithms
  pub full_length : Signature.sig_size b sig ≡ siglen key.algorithm
  pub within : Signature.data_size b sig ≤ size
  pub verified :
      crypto.rsa_verify key b
        (Signature.sig_data b sig)
        (siglen key.algorithm)
        key.algorithm
        (crypto.digest b at (Signature.data_size b sig) key.algorithm)
      ≡ true

pub verify_data_iff :
    (crypto : Crypto) (b : Bytes) (at size sig : ℕ) (key : RsaKey)
    → (verify_data crypto b at size sig key ≡ true) ↔ IsSigned crypto b at size sig key
unfolding verify_data rsa_verify_binary
verify_data_iff crypto b at size sig key = (λ h. ground arith, λ h. ground arith)

-- A firmware preamble that is sound: each part lies in the bytes that are signed.
pub record IsFirmwarePreamble (crypto : Crypto) (b : Bytes) (at size : ℕ) (key : RsaKey)
    : Type 0 where
  pub version : le32 b (at + 32) ≡ 2
  pub fits : le64 b at ≤ size
  pub signature : SignatureInside b at (le64 b at) (at + 8)
  pub signed_fits : Signature.data_size b (at + 8) ≤ le64 b at
  pub signed : IsSigned crypto b at size (at + 8) key
  pub header_signed : 108 ≤ Signature.data_size b (at + 8)
  pub body_signature : SignatureInside b at (Signature.data_size b (at + 8)) (at + 80)
  pub kernel_subkey : PublicKeyInside b at (Signature.data_size b (at + 8)) (at + 48)

pub record IsKernelPreamble (crypto : Crypto) (b : Bytes) (at size : ℕ) (key : RsaKey)
    : Type 0 where
  pub version : le32 b (at + 32) ≡ 2
  pub fits : le64 b at ≤ size
  pub signature : SignatureInside b at (le64 b at) (at + 8)
  pub signed : IsSigned crypto b at size (at + 8) key
  pub header_signed : 116 ≤ Signature.data_size b (at + 8)
  pub body_signature : SignatureInside b at (Signature.data_size b (at + 8)) (at + 72)

module _ (crypto : Crypto) (b : Bytes) (at size : ℕ) (key : RsaKey) (bytes : IsBytes b)
    (room : at + size < 2 ^ 64) where
  -- For a preamble in a buffer of bytes that does not wrap round the address space,
  -- VerifyFirmwarePreamble accepts exactly the preambles of version 2 whose RSA signature is good
  -- and covers the header, and whose body signature and kernel subkey lie, with their data, inside
  -- the bytes that are signed.
  pub verify_firmware_preamble_iff :
      (verify_firmware_preamble crypto b at size key ≡ success)
      ↔ IsFirmwarePreamble crypto b at size key
  unfolding verify_firmware_preamble preamble_header_valid preamble_inside
  verify_firmware_preamble_iff = (
    λ h. ground (
      arith,
      SignatureInside-iff b at (le64 b at) (at + 8) bytes,
      SignatureInside-iff b at (Signature.data_size b (at + 8)) (at + 80) bytes,
      PublicKeyInside-iff b at (Signature.data_size b (at + 8)) (at + 48) bytes,
      verify_data_iff crypto b at size (at + 8) key,
    ),
    λ h. ground (
      arith,
      SignatureInside-iff b at (le64 b at) (at + 8) bytes,
      SignatureInside-iff b at (Signature.data_size b (at + 8)) (at + 80) bytes,
      PublicKeyInside-iff b at (Signature.data_size b (at + 8)) (at + 48) bytes,
      verify_data_iff crypto b at size (at + 8) key,
    ),
  )

  -- For a preamble in a buffer of bytes that does not wrap round the address space,
  -- VerifyKernelPreamble accepts exactly the preambles of version 2 whose RSA signature is good and
  -- covers the header, and whose body signature lies, with its data, inside the bytes that are
  -- signed.
  pub verify_kernel_preamble_iff :
      (verify_kernel_preamble crypto b at size key ≡ success)
      ↔ IsKernelPreamble crypto b at size key
  unfolding verify_kernel_preamble preamble_inside
  verify_kernel_preamble_iff = (
    λ h. ground (
      arith,
      SignatureInside-iff b at (le64 b at) (at + 8) bytes,
      SignatureInside-iff b at (Signature.data_size b (at + 8)) (at + 72) bytes,
      verify_data_iff crypto b at size (at + 8) key,
    ),
    λ h. ground (
      arith,
      SignatureInside-iff b at (le64 b at) (at + 8) bytes,
      SignatureInside-iff b at (Signature.data_size b (at + 8)) (at + 72) bytes,
      verify_data_iff crypto b at size (at + 8) key,
    ),
  )

-- ===== src/Verify/Defs.antt =====
-- The checks of vboot_common.c over a buffer of bytes. Offsets of fields are those of the packed
-- structures of firmware/include/vboot_struct.h.
use futility.Prelude.{ℕ, ltb, ◌==◌, ◌/=◌, Bool, false, not}
use futility.Prelude.{Option, none, some, if◌then◌else◌, leb}
use futility.Prelude.Memory.{Bytes}
use futility.Verify.Crypto.{Crypto, RsaKey, num_algorithms, siglen, rsa_processed_key_size}
use futility.Verify.Crypto.{rsa_public_key_from_buf}
use futility.Verify.PublicKey
use futility.Verify.Signature
use futility.Verify.Inside.{verify_member_inside}

unfoldable pub verify_public_key_inside : Bytes → ℕ → ℕ → ℕ → Bool
verify_public_key_inside b parent parent_size key =
    verify_member_inside parent parent_size key 32 (PublicKey.key_offset b key)
      (PublicKey.key_size b key)

unfoldable pub verify_signature_inside : Bytes → ℕ → ℕ → ℕ → Bool
verify_signature_inside b parent parent_size sig =
    verify_member_inside parent parent_size sig 24 (Signature.sig_offset b sig)
      (Signature.sig_size b sig)

-- PublicKeyToRSA
unfoldable pub public_key_to_rsa : Bytes → ℕ → Option RsaKey
public_key_to_rsa b key =
    let algorithm = PublicKey.algorithm b key in
    if leb num_algorithms algorithm then none else elim (rsa_processed_key_size algorithm) [
      | none ↦ none
      | some key_size ↦
          if key_size /= PublicKey.key_size b key
          then none
          else if rsa_public_key_from_buf b (PublicKey.key_data b key) (PublicKey.key_size b key)
          then some (record { buf = b; at = PublicKey.key_data b key; algorithm = algorithm })
          else none
    ]

-- PublicKeyLooksOkay of libvboot_util/host/host_key.c.
unfoldable pub public_key_looks_okay : Bytes → ℕ → ℕ → Bool
public_key_looks_okay b key file_size =
    if not (verify_public_key_inside b key file_size key)
    then false
    else if leb num_algorithms (PublicKey.algorithm b key)
    then false
    else if ltb 0xFFFF (PublicKey.key_version b key)
    then false
    else elim (rsa_processed_key_size (PublicKey.algorithm b key)) [
      | none ↦ false
      | some key_size ↦ key_size == PublicKey.key_size b key
    ]

module _ (crypto : Crypto) where
  -- RSAVerifyBinary_f with a key and no key blob.
  unfoldable pub rsa_verify_binary : RsaKey → Bytes → ℕ → ℕ → ℕ → Bool
  rsa_verify_binary key b at size sig =
      if leb num_algorithms key.algorithm
      then false
      else crypto.rsa_verify key b sig (siglen key.algorithm) key.algorithm
          (crypto.digest b at size key.algorithm)

  -- VerifyData returns 0.
  unfoldable pub verify_data : Bytes → ℕ → ℕ → ℕ → RsaKey → Bool
  verify_data b at size sig key =
      if Signature.sig_size b sig /= siglen key.algorithm
      then false
      else if ltb size (Signature.data_size b sig)
      then false
      else rsa_verify_binary key b at (Signature.data_size b sig) (Signature.sig_data b sig)

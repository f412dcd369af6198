-- ===== src/Verify/KeyBlocks.antt =====
-- What KeyBlockVerify accepts, and the keys that PublicKeyToRSA makes.
use futility.Prelude.{ℕ, ◌+◌, ◌*◌, ◌^◌, ◌≤◌, ◌<◌, ◌≡◌, ◌↔◌, arith, true, false, some}
use futility.Prelude.{Option, Option-cases, inl, inr}
use futility.Prelude.Memory.{Bytes, IsBytes, le32, memcmp_eq}
use futility.Verify.Crypto.{Crypto, RsaKey, siglen, num_algorithms}
use futility.Verify.Crypto.{rsa_public_key_from_buf, rsa_processed_key_size}
use futility.Verify.Signature
use futility.Verify.Defs.{public_key_to_rsa}
use futility.Verify.Blocks.{success, key_block_verify, key_block_check_hash}
use futility.Verify.Blocks.{key_block_check_signature, key_block_signed, key_block_magic}
use futility.Verify.Blocks.{key_block_size, safe_memcmp_eq, sha512_digest_algorithm}
use futility.Verify.Laws.{SignatureInside, PublicKeyInside, IsSigned, verify_data_iff}
use futility.Verify.Laws.{SignatureInside-iff, PublicKeyInside-iff}

-- A key that PublicKeyToRSA accepts has one of the known algorithms, and the length that its data
-- states in words is the length of that algorithm's signatures.
pub public_key_to_rsa-length :
    (b : Bytes) (key : ℕ) {rsa : RsaKey}
    → public_key_to_rsa b key ≡ some rsa
    → (rsa.algorithm < num_algorithms) × (le32 b rsa.at * 4 ≡ siglen rsa.algorithm)
unfolding public_key_to_rsa rsa_processed_key_size rsa_public_key_from_buf
public_key_to_rsa-length b key h = ground arith

-- The first checks.
pub record IsKeyBlock (b : Bytes) (block size : ℕ) : Type 0 where
  pub room : 112 ≤ size
  pub magic : memcmp_eq b block key_block_magic ≡ true
  pub version : le32 b (block + 8) ≡ 2
  pub fits : key_block_size b block ≤ size

-- The signature or checksum at `sig` lies in the block, and covers at least the header and the data
-- key with its data.
pub record Covers (b : Bytes) (block sig : ℕ) : Type 0 where
  pub signature : SignatureInside b block (key_block_size b block) sig
  pub fits : Signature.data_size b sig ≤ key_block_size b block
  pub header_signed : 112 ≤ Signature.data_size b sig
  pub data_key : PublicKeyInside b block (Signature.data_size b sig) (block + 80)

module _ (crypto : Crypto) (b : Bytes) (block size : ℕ) (bytes : IsBytes b)
    (room : block + size < 2 ^ 64) where
  key_block_signed_iff :
      (sig : ℕ)
      → key_block_size b block ≤ size
      → SignatureInside b block (key_block_size b block) sig
      → Signature.data_size b sig ≤ key_block_size b block
      → 112 ≤ size
      → (key_block_signed b block sig ≡ success) ↔ Covers b block sig
  unfolding key_block_signed
  key_block_signed_iff sig fits inside within large = (
    λ h. ground (
      arith,
      PublicKeyInside-iff b block (key_block_size b block) (block + 80) bytes,
      PublicKeyInside-iff b block (Signature.data_size b sig) (block + 80) bytes,
    ),
    λ h. ground (
      arith,
      PublicKeyInside-iff b block (key_block_size b block) (block + 80) bytes,
      PublicKeyInside-iff b block (Signature.data_size b sig) (block + 80) bytes,
    ),
  )

  -- With `hash_only` KeyBlockVerify ignores the key, and accepts exactly the blocks whose SHA-512
  -- checksum is that of the bytes it says it covers, with header and data key among them.
  pub key_block_verify_hash_iff :
      (key : Option (Bytes × ℕ))
      → (key_block_verify crypto b block size key true ≡ success) ↔ (
          IsKeyBlock b block size
          × Covers b block (block + 48)
          × (Signature.sig_size b (block + 48) ≡ 64)
          × (safe_memcmp_eq 64
                (crypto.digest b block (Signature.data_size b (block + 48)) sha512_digest_algorithm)
                0
                b
                (Signature.sig_data b (block + 48))
              ≡ true))
  unfolding key_block_verify key_block_check_hash
  key_block_verify_hash_iff key = (
    λ h. ground (
      arith,
      SignatureInside-iff b block (key_block_size b block) (block + 48) bytes,
      key_block_signed_iff (block + 48),
    ),
    λ h. ground (
      arith,
      SignatureInside-iff b block (key_block_size b block) (block + 48) bytes,
      key_block_signed_iff (block + 48),
    ),
  )

  accepted :
      (k : Bytes) (at : ℕ) (rsa : RsaKey)
      → public_key_to_rsa k at ≡ some rsa
      → key_block_verify crypto b block size (some (k, at)) false ≡ success
      → IsKeyBlock b block size
        × Covers b block (block + 24)
        × ((rsa : RsaKey) × (public_key_to_rsa k at ≡ some rsa)
            × IsSigned crypto b block size (block + 24) rsa)
  unfolding key_block_verify key_block_check_signature
  accepted k at rsa e h = let (header, covers, signed) = parts in (header, covers, (rsa, e, signed))
    where
      parts :
          IsKeyBlock b block size
          × Covers b block (block + 24)
          × IsSigned crypto b block size (block + 24) rsa
      parts = ground (
        arith,
        SignatureInside-iff b block (key_block_size b block) (block + 24) bytes,
        key_block_signed_iff (block + 24),
        verify_data_iff crypto b block size (block + 24) rsa,
      )

  -- Without it, KeyBlockVerify accepts exactly the blocks whose signature is that of the bytes it
  -- says it covers, header and data key among them, by the RSA key that the public key holds.
  pub key_block_verify_signature_iff :
      (k : Bytes) (at : ℕ)
      → (key_block_verify crypto b block size (some (k, at)) false ≡ success) ↔ (
          IsKeyBlock b block size
          × Covers b block (block + 24)
          × ((rsa : RsaKey) × (public_key_to_rsa k at ≡ some rsa)
              × IsSigned crypto b block size (block + 24) rsa))
  unfolding key_block_verify key_block_check_signature
  key_block_verify_signature_iff k at = (
    λ h. elim (Option-cases (public_key_to_rsa k at)) [
      | inl e ↦ absurd (ground arith)
      | inr (rsa, e) ↦ accepted k at rsa e h
    ],
    λ h. ground (
      arith,
      SignatureInside-iff b block (key_block_size b block) (block + 24) bytes,
      key_block_signed_iff (block + 24),
      verify_data_iff crypto b block size (block + 24) h.2.0,
    ),
  )

-- ===== src/Host/KernelMade.antt =====
-- What CreateKernelPreamble stores in a preamble, and what VerifyKernelPreamble reads of it.
use futility.Prelude.{ℕ, ◌+◌, ◌^◌, ◌≤◌, ◌<◌, ◌⊎◌, inl, inr, ltb, if◌then◌else◌}
use futility.Prelude.{◌≡◌, refl, ap, ◌∙◌, arith, some, u64, u32, List, [], ◌∷◌}
use futility.Prelude.Memory.{Bytes, IsBytes, le32, le64, le32_same, le64_same}
use futility.Prelude.Stores.{
  Store, store32, store64, stores, stores-IsBytes, last32, last64, last32_lem, last64_lem,
}
use futility.Verify.Crypto.{Crypto, RsaKey, siglen}
use futility.Verify.Signature
use futility.Verify.Laws.{IsKernelPreamble}
use futility.Host.Structs.{PrivateKey, Outside, signature_init, signature_copy}
use futility.Host.Create.{
  Pointer, KernelNumbers, sig_size_of, zeroed, kernel_numbers, kernel_fields,
}
use futility.Host.Copied.{Copied, signature_copy-Copied}
use futility.Host.Signing.{Signs, zeroed-IsBytes}
use futility.Host.Signed.{Signed}

-- The scalar fields, in the order of their stores.
abbrev pub scalars : ℕ → KernelNumbers → List Store
scalars block_size n =
    store32 32 2
    ∷ store32 36 2
    ∷ store64 0 block_size
    ∷ store64 40 n.kernel_version
    ∷ store64 48 n.body_load_address
    ∷ store64 56 n.bootloader_address
    ∷ store64 64 n.bootloader_size
    ∷ store64 96 n.vmlinuz_header_address
    ∷ store64 104 n.vmlinuz_header_size
    ∷ store32 112 n.flags
    ∷ []

kernel_numbers-stores :
    (m : Bytes) (block_size : ℕ) (n : KernelNumbers)
    → kernel_numbers m block_size n ≡ stores (zeroed m 0 block_size) (scalars block_size n)
unfolding kernel_numbers
kernel_numbers-stores m block_size n = refl

-- The preamble `h` holds these numbers, in their width, and a copy of the body signature.
pub record HoldsKernel (h : Bytes) (n : KernelNumbers) (body : Pointer) : Type 0 where
  pub kernel_version : le64 h 40 ≡ u64 n.kernel_version
  pub body_load_address : le64 h 48 ≡ u64 n.body_load_address
  pub bootloader_address : le64 h 56 ≡ u64 n.bootloader_address
  pub bootloader_size : le64 h 64 ≡ u64 n.bootloader_size
  pub vmlinuz_header_address : le64 h 96 ≡ u64 n.vmlinuz_header_address
  pub vmlinuz_header_size : le64 h 104 ≡ u64 n.vmlinuz_header_size
  pub flags : le32 h 112 ≡ u32 n.flags
  pub sig_size : Signature.sig_size h 72 ≡ sig_size_of body
  pub data_size : Signature.data_size h 72 ≡ Signature.data_size body.buf body.at
  pub sig_data :
      (i : ℕ)
      → i < sig_size_of body
      → h (Signature.sig_data h 72 + i) ≡ body.buf (Signature.sig_data body.buf body.at + i)

-- The header and the body signature.
abbrev pub signed_bytes : Pointer → ℕ
signed_bytes body = 116 + sig_size_of body

-- The preamble before it is signed.
abbrev pub with_body : Bytes → ℕ → KernelNumbers → Pointer → Bytes
with_body m block_size n body =
    signature_copy (signature_init (kernel_numbers m block_size n) 72 116 (sig_size_of body) 0) 72
      body.buf body.at

pub kernel_fields-unsigned :
    (m : Bytes) (block_size : ℕ) (n : KernelNumbers) (body : Pointer) (key : PrivateKey)
    → u64 (signed_bytes body) ≡ signed_bytes body
    → kernel_fields m (signed_bytes body) block_size n body key
      ≡ signature_init
          (with_body m block_size n body)
          8
          (signed_bytes body)
          (siglen key.algorithm)
          (signed_bytes body)
unfolding kernel_fields
kernel_fields-unsigned m block_size n body key e = rw e refl

-- The size of the block, where no sum wraps.
abbrev pub padded : Pointer → ℕ → PrivateKey → ℕ
padded body desired_size key =
    if ltb (signed_bytes body + siglen key.algorithm) desired_size
    then desired_size
    else signed_bytes body + siglen key.algorithm

module _ (outside : Outside) (crypto : Crypto) (key : PrivateKey) (rsa : RsaKey)
    (laws : Signs outside crypto key rsa) (n : KernelNumbers) (body : Pointer)
    (body_bytes : IsBytes body.buf) (fits : sig_size_of body + 2048 < 2 ^ 64) where
  module _ (m : Bytes) (hm : IsBytes m) (block_size : ℕ) (fits_block : block_size < 2 ^ 64)
      (room : signed_bytes body + siglen key.algorithm ≤ block_size) where
    base-IsBytes : IsBytes (kernel_numbers m block_size n)
    unfolding kernel_numbers
    base-IsBytes =
        stores-IsBytes (zeroed m 0 block_size) (scalars block_size n)
          (zeroed-IsBytes m 0 block_size hm)

    pub body_copied :
        Copied
          (kernel_numbers m block_size n)
          (with_body m block_size n body)
          72
          116
          (sig_size_of body)
          (Signature.data_size body.buf body.at)
          body.buf
          (Signature.sig_data body.buf body.at)
    body_copied =
        signature_copy-Copied (kernel_numbers m block_size n) 72 116 (sig_size_of body) 0 body.buf
          body.at base-IsBytes body_bytes (omega arith) (omega arith) (omega arith) (omega arith)

    module _ (h : Bytes)
        (s : Signed crypto key rsa
          (with_body m block_size n body)
          8
          (signed_bytes body)
          (signed_bytes body)
          h) where
      -- The header is that of the scalar fields, but for the signatures.
      header :
          (i : ℕ)
          → (i < 8) ⊎ (32 ≤ i)
          → (i < 72) ⊎ (96 ≤ i)
          → i < 116
          → h i ≡ kernel_numbers m block_size n i
      header i out_sig out_body low =
          s.rest i (omega arith) out_sig ∙ body_copied.rest i out_body (inl low)

      field64 :
          (o : ℕ)
          → (o + 8 ≤ 8) ⊎ (32 ≤ o)
          → (o + 8 ≤ 72) ⊎ (96 ≤ o)
          → o + 8 ≤ 116
          → le64 h o ≡ le64 (kernel_numbers m block_size n) o
      field64 o a b c =
          le64_same h (kernel_numbers m block_size n) o
            (λ i lo hi. header i (ground arith) (ground arith) (omega arith))

      field32 :
          (o : ℕ)
          → 32 ≤ o
          → (o + 4 ≤ 72) ⊎ (96 ≤ o)
          → o + 4 ≤ 116
          → le32 h o ≡ le32 (kernel_numbers m block_size n) o
      field32 o a b c =
          le32_same h (kernel_numbers m block_size n) o
            (λ i lo hi. header i (ground arith) (ground arith) (omega arith))

      in_body : (o : ℕ) → 32 ≤ o → o + 8 ≤ 116 → le64 h o ≡ le64 (with_body m block_size n body) o
      in_body o a b =
          le64_same h (with_body m block_size n body) o
            (λ i lo hi. s.rest i (omega arith) (inr (omega arith)))

      base64 :
          (o : ℕ) {v : ℕ}
          → last64 (scalars block_size n) o ≡ some v
          → le64 (kernel_numbers m block_size n) o ≡ u64 v
      unfolding kernel_numbers
      base64 o e = last64_lem (zeroed m 0 block_size) (scalars block_size n) o e

      base32 :
          (o : ℕ) {v : ℕ}
          → last32 (scalars block_size n) o ≡ some v
          → le32 (kernel_numbers m block_size n) o ≡ u32 v
      unfolding kernel_numbers
      base32 o e = last32_lem (zeroed m 0 block_size) (scalars block_size n) o e

      pub made-HoldsKernel : HoldsKernel h n body
      made-HoldsKernel =
          let place : Signature.sig_data h 72 ≡ 116 =
            omega (arith, in_body 72 (omega arith) (omega arith), body_copied.offset) in
          record {
            kernel_version =
                field64 40 (inr (omega arith)) (inl (omega arith)) (omega arith) ∙ base64 40 refl;
            body_load_address =
                field64 48 (inr (omega arith)) (inl (omega arith)) (omega arith) ∙ base64 48 refl;
            bootloader_address =
                field64 56 (inr (omega arith)) (inl (omega arith)) (omega arith) ∙ base64 56 refl;
            bootloader_size =
                field64 64 (inr (omega arith)) (inl (omega arith)) (omega arith) ∙ base64 64 refl;
            vmlinuz_header_address =
                field64 96 (inr (omega arith)) (inr (omega arith)) (omega arith) ∙ base64 96 refl;
            vmlinuz_header_size =
                field64 104 (inr (omega arith)) (inr (omega arith)) (omega arith) ∙ base64 104 refl;
            flags = field32 112 (omega arith) (inr (omega arith)) (omega arith) ∙ base32 112 refl;
            sig_size = in_body 80 (omega arith) (omega arith) ∙ body_copied.sig_size;
            data_size = in_body 88 (omega arith) (omega arith) ∙ body_copied.data_size_is;
            sig_data = λ i l.
                ap (λ (p : ℕ). h (p + i)) place
                ∙ s.rest (116 + i) (omega arith) (inr (omega arith))
                ∙ body_copied.data_is i l;
          }

      pub made-block_size : le64 h 0 ≡ block_size
      made-block_size =
          field64 0 (inl (omega arith)) (inl (omega arith)) (omega arith)
          ∙ base64 0 refl
          ∙ omega arith

      -- VerifyKernelPreamble accepts it.
      pub made-IsKernelPreamble :
          (size : ℕ) → block_size ≤ size → IsKernelPreamble crypto h 0 size rsa
      made-IsKernelPreamble size large = record {
        version = field32 32 (omega arith) (inl (omega arith)) (omega arith) ∙ base32 32 refl;
        fits = omega (arith, made-block_size);
        signature = record {
          after = omega arith;
          struct_fits = omega (arith, made-block_size);
          data_fits = omega (arith, made-block_size, s.offset, s.sig_size);
        };
        signed = s.signed size (omega arith);
        header_signed = omega (arith, s.data_size);
        body_signature = record {
          after = omega arith;
          struct_fits = omega (arith, s.data_size);
          data_fits = omega (
            arith,
            s.data_size,
            in_body 72 (omega arith) (omega arith),
            body_copied.offset,
            made-HoldsKernel.sig_size,
          );
        };
      }

-- ===== src/Verify/Tests.antt =====
-- Runs of the checks of vboot_common.c, and the theorems at concrete buffers, with a toy digest and
-- a toy signature scheme.
use futility.Prelude.{
  ℕ, ◌^◌, ◌-◌, ◌<◌, ◌*◌, ◌≡◌, ◌↔◌, refl, arith, true, false, ltb, ◌==◌, if◌then◌else◌, u8, none,
  some,
}
use futility.Prelude.{List, [], ◌∷◌}
use futility.Prelude.Memory.{Bytes, IsBytes, put_all, put_all-IsBytes, put32, memcmp_eq, le32}
use futility.Verify.Crypto.{Crypto, RsaKey, siglen, rsa_public_key_from_buf, rsa_processed_key_size}
use futility.Verify.Crypto.{stateful_memcpy, num_algorithms}
use futility.Verify.Inside.{verify_member_inside, IsInside, verify_member_inside_iff}
use futility.Verify.Defs.{verify_public_key_inside, verify_signature_inside, verify_data}
use futility.Verify.Defs.{rsa_verify_binary, public_key_to_rsa}
use futility.Verify.Blocks.{
  success, preamble_header_valid, preamble_inside, verify_firmware_preamble,
}
use futility.Verify.Blocks.{verify_kernel_preamble, key_block_verify, key_block_check_hash}
use futility.Verify.Blocks.{key_block_check_signature, key_block_signed, safe_memcmp_eq}
use futility.Verify.Blocks.{sha512_digest_algorithm}
use futility.Verify.Signature
use futility.Verify.Laws.{IsFirmwarePreamble, IsKernelPreamble, IsSigned}
use futility.Verify.Laws.{verify_firmware_preamble_iff, verify_kernel_preamble_iff}
use futility.Verify.KeyBlocks.{IsKeyBlock, Covers, key_block_verify_hash_iff}
use futility.Verify.KeyBlocks.{key_block_verify_signature_iff, public_key_to_rsa-length}

-- The digest is the length, over and over; a signature is good if it starts with the digest's first
-- byte.
abbrev toy : Crypto
toy = record {
  digest = λ b o n algorithm. λ i. u8 n;
  rsa_verify = λ key b o n algorithm hash. hash 0 == b o;
}

-- 0x6C, which is 108, from the offset 108 on.
abbrev filler : Bytes
filler = λ i. if ltb i 108 then 0 else 0x6C

filler-IsBytes : IsBytes filler
filler-IsBytes i = ground arith

abbrev firmware_fields : List (ℕ × ℕ)
firmware_fields =
    (0, 236) ∷ (8, 100) ∷ (16, 128) ∷ (24, 108) ∷ (32, 2) ∷ (36, 1) ∷ (48, 32) ∷ (80, 24) ∷ []

abbrev firmware : Bytes
firmware = put_all filler firmware_fields

firmware-IsBytes : IsBytes firmware
firmware-IsBytes = put_all-IsBytes filler firmware_fields filler-IsBytes

abbrev key_buffer : Bytes
key_buffer = put_all (λ i. 0) ((0, 32) ∷ (8, 264) ∷ (32, 32) ∷ [])

abbrev rsa_key : RsaKey
rsa_key = record { buf = key_buffer; at = 32; algorithm = 0 }

firmware_test : verify_firmware_preamble toy firmware 0 300 rsa_key ≡ success
unfolding verify_firmware_preamble preamble_header_valid preamble_inside verify_signature_inside
    verify_member_inside verify_data rsa_verify_binary siglen verify_public_key_inside put32
firmware_test = refl

verify_firmware_preamble_iff_example :
    (verify_firmware_preamble toy firmware 0 300 rsa_key ≡ success)
    ↔ IsFirmwarePreamble toy firmware 0 300 rsa_key
verify_firmware_preamble_iff_example =
    verify_firmware_preamble_iff toy firmware 0 300 rsa_key firmware-IsBytes (omega arith)

-- 0x74, which is 116, from the offset 116 on.
abbrev kernel_fields : List (ℕ × ℕ)
kernel_fields = (0, 244) ∷ (8, 108) ∷ (16, 128) ∷ (24, 116) ∷ (32, 2) ∷ (36, 2) ∷ (72, 24) ∷ []

abbrev kernel : Bytes
kernel = put_all (λ i. if ltb i 116 then 0 else 0x74) kernel_fields

kernel-IsBytes : IsBytes kernel
kernel-IsBytes =
    put_all-IsBytes (λ i. if ltb i 116 then 0 else 0x74) kernel_fields (λ i. ground arith)

kernel_test : verify_kernel_preamble toy kernel 0 244 rsa_key ≡ success
unfolding verify_kernel_preamble preamble_inside verify_signature_inside verify_member_inside
    verify_data rsa_verify_binary siglen put32
kernel_test = refl

verify_kernel_preamble_iff_example :
    (verify_kernel_preamble toy kernel 0 244 rsa_key ≡ success)
    ↔ IsKernelPreamble toy kernel 0 244 rsa_key
verify_kernel_preamble_iff_example =
    verify_kernel_preamble_iff toy kernel 0 244 rsa_key kernel-IsBytes (omega arith)

-- "CHROMEOS", and 0x70, which is 112, from the offset 112 on.
abbrev block_fields : List (ℕ × ℕ)
block_fields =
    (0, 0x4F524843)
    ∷ (4, 0x534F454D)
    ∷ (8, 2)
    ∷ (16, 240)
    ∷ (24, 88)
    ∷ (32, 128)
    ∷ (40, 112)
    ∷ (48, 64)
    ∷ (56, 64)
    ∷ (64, 112)
    ∷ (80, 32)
    ∷ []

abbrev block : Bytes
block = put_all (λ i. if ltb i 112 then 0 else 0x70) block_fields

block-IsBytes : IsBytes block
block-IsBytes =
    put_all-IsBytes (λ i. if ltb i 112 then 0 else 0x70) block_fields (λ i. ground arith)

hash_test : key_block_verify toy block 0 240 none true ≡ success
unfolding key_block_verify key_block_check_hash key_block_signed verify_signature_inside
    verify_public_key_inside verify_member_inside safe_memcmp_eq memcmp_eq put32
hash_test = refl

signature_test : key_block_verify toy block 0 240 (some (key_buffer, 0)) false ≡ success
unfolding key_block_verify key_block_check_signature key_block_signed verify_signature_inside
    verify_public_key_inside verify_member_inside memcmp_eq put32 public_key_to_rsa verify_data
    rsa_verify_binary siglen rsa_public_key_from_buf rsa_processed_key_size stateful_memcpy
signature_test = refl

key_block_verify_hash_iff_example : (key_block_verify toy block 0 240 none true ≡ success) ↔ (
    IsKeyBlock block 0 240
    × Covers block 0 48
    × (Signature.sig_size block 48 ≡ 64)
    × (safe_memcmp_eq 64
          (toy.digest block 0 (Signature.data_size block 48) sha512_digest_algorithm)
          0
          block
          (Signature.sig_data block 48)
        ≡ true))
key_block_verify_hash_iff_example =
    key_block_verify_hash_iff toy block 0 240 block-IsBytes (omega arith) none

key_block_verify_signature_iff_example :
    (key_block_verify toy block 0 240 (some (key_buffer, 0)) false ≡ success) ↔ (
      IsKeyBlock block 0 240
      × Covers block 0 24
      × ((rsa : RsaKey) × (public_key_to_rsa key_buffer 0 ≡ some rsa)
          × IsSigned toy block 0 240 24 rsa))
key_block_verify_signature_iff_example =
    key_block_verify_signature_iff toy block 0 240 block-IsBytes (omega arith) key_buffer 0

rsa_key_test : public_key_to_rsa key_buffer 0 ≡ some rsa_key
unfolding public_key_to_rsa siglen rsa_public_key_from_buf rsa_processed_key_size stateful_memcpy
    put32
rsa_key_test = refl

public_key_to_rsa-length_test : (0 < num_algorithms) × (le32 key_buffer 32 * 4 ≡ siglen 0)
public_key_to_rsa-length_test = public_key_to_rsa-length key_buffer 0 rsa_key_test

-- A member whose data would end past the end of the address space.
verify_member_inside_iff_example :
    (verify_member_inside 100 50 110 24 (2 ^ 64 - 8) 30 ≡ true)
    ↔ IsInside 100 50 110 24 (2 ^ 64 - 8) 30
verify_member_inside_iff_example =
    verify_member_inside_iff 100 50 110 24 (2 ^ 64 - 8) 30 (omega arith) (omega arith) (omega arith)
      (omega arith) (omega arith)

-- ===== src/Host/Create.antt =====
-- KeyBlockCreate of libvboot_util/host/host_keyblock.c, and CreateFirmwarePreamble and
-- CreateKernelPreamble of libvboot_util/host/host_common.c. What they make is at the start of its
-- buffer. The result is `none` where C uses a NULL pointer, and `some none` where it returns one.
use futility.Prelude.{ℕ, ◌+◌, ltb, Option, none, some, if◌then◌else◌, u64}
use futility.Prelude.Memory.{Bytes, put32, put_text}
use futility.Prelude.Copy.{put64}
use futility.Verify.Crypto.{Crypto, siglen}
use futility.Verify.PublicKey
use futility.Verify.Signature
use futility.Verify.Blocks.{key_block_magic}
use futility.Host.Structs.{PrivateKey, Outside, public_key_init, public_key_copy}
use futility.Host.Structs.{signature_init, copy_from, signature_copy}
use futility.Host.Structs.{calculate_checksum, calculate_signature}

-- A structure at an offset in a buffer, behind a pointer that is not NULL.
pub record Pointer : Type 0 where
  pub buf : Bytes
  pub at : ℕ

-- `Memset(b, 0, n)`
unfoldable pub zeroed : Bytes → ℕ → ℕ → Bytes
zeroed b o n = λ i. if ltb i o then b i else if ltb i (o + n) then 0 else b i

abbrev pub key_size_of : Pointer → ℕ
key_size_of p = PublicKey.key_size p.buf p.at

abbrev pub sig_size_of : Pointer → ℕ
sig_size_of p = Signature.sig_size p.buf p.at

-- `siglen_map[signing_key->algorithm]`, or 0 without a key.
abbrev pub room_for : Option PrivateKey → ℕ
room_for none = 0
room_for (some key) = siglen key.algorithm

-- The fields of a key block, up to its signature and its checksum.
unfoldable pub key_block_fields : Bytes → ℕ → ℕ → ℕ → Pointer → Option PrivateKey → Bytes
key_block_fields m signed_size block_size flags data_key signing_key =
    let named = put_text m 0 key_block_magic in
    let versioned = put32 (put32 named 8 2) 12 1 in
    let sized = put64 (put64 versioned 16 block_size) 72 flags in
    let keyed =
      public_key_copy (public_key_init sized 80 112 (key_size_of data_key)) 80 data_key.buf
        data_key.at in
    let checksummed = signature_init keyed 48 signed_size 64 signed_size in
    elim signing_key [
      | none ↦ zeroed checksummed 24 24
      | some key ↦
          signature_init checksummed 24 (u64 (signed_size + 64)) (siglen key.algorithm) signed_size
    ]

-- The fields of a firmware preamble, up to its signature.
unfoldable pub firmware_fields : Bytes → ℕ → ℕ → ℕ → Pointer → Pointer → PrivateKey → ℕ → Bytes
firmware_fields m signed_size block_size version kernel_subkey body_signature key flags =
    let body = u64 (108 + key_size_of kernel_subkey) in
    let sized = put64 (put32 (put32 (zeroed m 0 block_size) 32 2) 36 1) 0 block_size in
    let flagged = put32 (put64 sized 40 version) 104 flags in
    let keyed =
      public_key_copy (public_key_init flagged 48 108 (key_size_of kernel_subkey)) 48
        kernel_subkey.buf kernel_subkey.at in
    let signed =
      signature_copy (signature_init keyed 80 body (sig_size_of body_signature) 0) 80
        body_signature.buf body_signature.at in
    signature_init signed 8 (u64 (body + sig_size_of body_signature)) (siglen key.algorithm)
      signed_size

module _ (outside : Outside) (crypto : Crypto) where
  -- CalculateSignature, copied to the signature at `sig`.
  abbrev pub sign : Bytes → ℕ → ℕ → ℕ → PrivateKey → Option (Option Bytes)
  sign b sig k signed_size key =
      elim (copy_from b sig (calculate_signature outside crypto k b signed_size key)) [
        | none ↦ none
        | some h ↦ some (some h)
      ]

  -- KeyBlockCreate
  unfoldable pub key_block_create : Pointer → Option PrivateKey → ℕ → Option (Option Bytes)
  key_block_create data_key signing_key flags =
      let signed_size = u64 (112 + key_size_of data_key) in
      let block_size = u64 (signed_size + 64 + room_for signing_key) in
      elim (outside.malloc 0 block_size) [
        | none ↦ some none
        | some m ↦
            let h = key_block_fields m signed_size block_size flags data_key signing_key in
            elim (copy_from h 48 (calculate_checksum outside crypto 1 h signed_size)) [
              | none ↦ none
              | some h ↦ elim signing_key [
                | none ↦ some (some h)
                | some key ↦ sign h 24 2 signed_size key
              ]
            ]
      ]

  -- CreateFirmwarePreamble
  unfoldable pub create_firmware_preamble :
      ℕ → Pointer → Pointer → PrivateKey → ℕ → Option (Option Bytes)
  create_firmware_preamble version kernel_subkey body_signature key flags =
      let signed_size = u64 (108 + key_size_of kernel_subkey + sig_size_of body_signature) in
      let block_size = u64 (signed_size + siglen key.algorithm) in
      elim (outside.malloc 0 block_size) [
        | none ↦ some none
        | some m ↦
            sign
              (firmware_fields m signed_size block_size version kernel_subkey body_signature key
                flags)
              8 1 signed_size key
      ]

-- The numbers that CreateKernelPreamble stores.
pub record KernelNumbers : Type 0 where
  pub kernel_version : ℕ
  pub body_load_address : ℕ
  pub bootloader_address : ℕ
  pub bootloader_size : ℕ
  pub vmlinuz_header_address : ℕ
  pub vmlinuz_header_size : ℕ
  pub flags : ℕ

-- The scalar fields of a kernel preamble.
unfoldable pub kernel_numbers : Bytes → ℕ → KernelNumbers → Bytes
kernel_numbers m block_size n =
    let sized = put64 (put32 (put32 (zeroed m 0 block_size) 32 2) 36 2) 0 block_size in
    let loaded = put64 (put64 sized 40 n.kernel_version) 48 n.body_load_address in
    let booted = put64 (put64 loaded 56 n.bootloader_address) 64 n.bootloader_size in
    let linux = put64 (put64 booted 96 n.vmlinuz_header_address) 104 n.vmlinuz_header_size in
    put32 linux 112 n.flags

-- The body signature, and the place of the signature.
unfoldable pub kernel_fields : Bytes → ℕ → ℕ → KernelNumbers → Pointer → PrivateKey → Bytes
kernel_fields m signed_size block_size n body_signature key =
    let signed =
      signature_copy
        (signature_init (kernel_numbers m block_size n) 72 116 (sig_size_of body_signature) 0) 72
        body_signature.buf body_signature.at in
    signature_init signed 8 (u64 (116 + sig_size_of body_signature)) (siglen key.algorithm)
      signed_size

module _ (outside : Outside) (crypto : Crypto) where
  -- CreateKernelPreamble
  unfoldable pub create_kernel_preamble :
      KernelNumbers → Pointer → ℕ → PrivateKey → Option (Option Bytes)
  create_kernel_preamble n body_signature desired_size key =
      let signed_size = u64 (116 + sig_size_of body_signature) in
      let needed = u64 (signed_size + siglen key.algorithm) in
      let block_size = if ltb needed desired_size then desired_size else needed in
      elim (outside.malloc 0 block_size) [
        | none ↦ some none
        | some m ↦
            sign outside crypto (kernel_fields m signed_size block_size n body_signature key) 8 1
              signed_size key
      ]

-- ===== src/Host/Firmware.antt =====
-- CreateFirmwarePreamble makes preambles that VerifyFirmwarePreamble accepts.
use futility.Prelude.{ℕ, ◌+◌, ◌^◌, ◌≤◌, ◌<◌}
use futility.Prelude.{◌≡◌, ap, ◌∙◌, arith, none, some, Option, option_some, u64}
use futility.Prelude.Memory.{Bytes, IsBytes}
use futility.Verify.Crypto.{Crypto, RsaKey, siglen}
use futility.Verify.Blocks.{success, verify_firmware_preamble}
use futility.Verify.Laws.{verify_firmware_preamble_iff}
use futility.Host.Structs.{PrivateKey, Outside, signature_init, signature_copy}
use futility.Host.Create.{Pointer, key_size_of, sig_size_of, firmware_fields}
use futility.Host.Create.{create_firmware_preamble, sign}
use futility.Host.Signing.{Signs, siglen-le}
use futility.Host.Signed.{sign-Signed}
use futility.Host.FirmwareMade.{
  with_key, with_body, body_at, signed_bytes, body_copied, HoldsFirmware, made-HoldsFirmware,
  made-block_size, made-IsFirmwarePreamble,
}

firmware_fields-unsigned :
    (m : Bytes) (block_size version : ℕ) (subkey body : Pointer) (key : PrivateKey) (flags : ℕ)
    → u64 (body_at subkey) ≡ body_at subkey
    → u64 (signed_bytes subkey body) ≡ signed_bytes subkey body
    → firmware_fields m (signed_bytes subkey body) block_size version subkey body key flags
      ≡ signature_init
          (with_body m block_size version flags subkey body)
          8
          (signed_bytes subkey body)
          (siglen key.algorithm)
          (signed_bytes subkey body)
unfolding firmware_fields
firmware_fields-unsigned m block_size version subkey body key flags e e' =
    let made : ℕ → ℕ → Bytes = λ at place.
      signature_init
        (signature_copy
          (signature_init (with_key m block_size version flags subkey) 80 at (sig_size_of body) 0)
          80 body.buf body.at)
        8 place (siglen key.algorithm) (signed_bytes subkey body) in
    ap (λ (x : ℕ). made x (u64 (x + sig_size_of body))) e ∙ ap (made (body_at subkey)) e'

create_firmware_preamble-sign :
    (outside : Outside) (crypto : Crypto) (version : ℕ) (subkey body : Pointer) (key : PrivateKey)
    (flags : ℕ) (m : Bytes)
    → u64 (body_at subkey) ≡ body_at subkey
    → u64 (signed_bytes subkey body) ≡ signed_bytes subkey body
    → u64 (signed_bytes subkey body + siglen key.algorithm)
      ≡ signed_bytes subkey body + siglen key.algorithm
    → outside.malloc 0 (signed_bytes subkey body + siglen key.algorithm) ≡ some m
    → create_firmware_preamble outside crypto version subkey body key flags
      ≡ sign outside crypto
          (signature_init
            (with_body m
              (signed_bytes subkey body + siglen key.algorithm)
              version
              flags
              subkey
              body)
            8
            (signed_bytes subkey body)
            (siglen key.algorithm)
            (signed_bytes subkey body))
          8
          1
          (signed_bytes subkey body)
          key
unfolding create_firmware_preamble
create_firmware_preamble-sign outside crypto version subkey body key flags m e e' e'' there =
    let call : ℕ → ℕ → Bytes → Option (Option Bytes) = λ size block_size m.
      sign outside crypto (firmware_fields m size block_size version subkey body key flags) 8 1 size
        key in
    let made : ℕ → ℕ → Option (Option Bytes) = λ size block_size.
      elim (outside.malloc 0 block_size) [ none ↦ some none | some m ↦ call size block_size m ] in
    let o = signed_bytes subkey body in
    ap (λ (x : ℕ). made x (u64 (x + siglen key.algorithm))) e'
    ∙ ap (made o) e''
    ∙ option_some (some none) (call o (o + siglen key.algorithm)) there
    ∙ ap (λ (h : Bytes). sign outside crypto h 8 1 o key)
        (firmware_fields-unsigned m (o + siglen key.algorithm) version subkey body key flags e e')

-- With memory and a pair of keys, CreateFirmwarePreamble gives a preamble that VerifyFirmwarePreamble
-- accepts in a buffer with room for its parts, and which holds the version and the flags in their
-- width, and copies of the kernel subkey and of the body signature: for sizes of these two that leave
-- room in 64 bits.
pub create_firmware_preamble-Accepted :
    (outside : Outside) (crypto : Crypto) (key : PrivateKey) (rsa : RsaKey)
    → Signs outside crypto key rsa
    → (version flags : ℕ) (subkey body : Pointer) → IsBytes subkey.buf
    → IsBytes body.buf
    → key_size_of subkey + sig_size_of body + 4096 < 2 ^ 64
    → (size : ℕ) → signed_bytes subkey body + siglen key.algorithm ≤ size
    → size < 2 ^ 64
    → (h : Bytes) × (create_firmware_preamble outside crypto version subkey body key flags
        ≡ some (some h))
      × (verify_firmware_preamble crypto h 0 size rsa ≡ success)
      × HoldsFirmware h version flags subkey body
create_firmware_preamble-Accepted outside crypto key rsa laws version flags subkey body hk hb fits
      size large room =
    let o = signed_bytes subkey body in
    let block_size = o + siglen key.algorithm in
    let small = siglen-le key.algorithm in
    let mem = laws.memory 0 block_size in
    let copied =
      body_copied key rsa crypto version flags subkey body hk hb (omega arith) mem.m mem.bytes
        block_size (omega arith) (omega arith) in
    let (h, e, s) =
      sign-Signed outside crypto key rsa laws (with_body mem.m block_size version flags subkey body)
        copied.bytes 8 o o (omega arith) (omega arith) (omega arith) 1 in
    let size_is =
      made-block_size key rsa crypto version flags subkey body hk hb (omega arith) mem.m mem.bytes
        block_size (omega arith) (omega arith) h s in
    (
      h,
      create_firmware_preamble-sign outside crypto version subkey body key flags mem.m (omega arith)
            (omega arith) (omega arith) mem.there
          ∙ e,
      (verify_firmware_preamble_iff crypto h 0 size rsa s.bytes (omega arith)).1 (
          made-IsFirmwarePreamble key rsa crypto version flags subkey body hk hb (omega arith) mem.m
            mem.bytes block_size (omega arith) (omega arith) h s size (omega (arith, size_is))),
      made-HoldsFirmware key rsa crypto version flags subkey body hk hb (omega arith) mem.m
          mem.bytes block_size (omega arith) (omega arith) h s,
    )

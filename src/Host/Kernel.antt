-- ===== src/Host/Kernel.antt =====
-- CreateKernelPreamble makes preambles that VerifyKernelPreamble accepts.
use futility.Prelude.{ℕ, ◌+◌, ◌^◌, ◌≤◌, ◌<◌, ltb, if◌then◌else◌}
use futility.Prelude.{◌≡◌, ap, ◌∙◌, arith, none, some, Option, option_some, u64}
use futility.Prelude.Memory.{Bytes, IsBytes, le64}
use futility.Verify.Crypto.{Crypto, RsaKey, siglen}
use futility.Verify.Blocks.{success, verify_kernel_preamble}
use futility.Verify.Laws.{verify_kernel_preamble_iff}
use futility.Host.Structs.{PrivateKey, Outside, signature_init}
use futility.Host.Create.{Pointer, KernelNumbers, sig_size_of, kernel_fields}
use futility.Host.Create.{create_kernel_preamble, sign}
use futility.Host.Signing.{Signs, siglen-le}
use futility.Host.Signed.{sign-Signed}
use futility.Host.KernelMade.{
  with_body, signed_bytes, kernel_fields-unsigned, padded, body_copied, HoldsKernel,
  made-HoldsKernel, made-block_size, made-IsKernelPreamble,
}

create_kernel_preamble-sign :
    (outside : Outside) (crypto : Crypto) (n : KernelNumbers) (body : Pointer) (desired_size : ℕ)
    (key : PrivateKey) (m : Bytes)
    → u64 (signed_bytes body) ≡ signed_bytes body
    → u64 (signed_bytes body + siglen key.algorithm) ≡ signed_bytes body + siglen key.algorithm
    → outside.malloc 0 (padded body desired_size key) ≡ some m
    → create_kernel_preamble outside crypto n body desired_size key
      ≡ sign outside crypto
          (signature_init
            (with_body m (padded body desired_size key) n body)
            8
            (signed_bytes body)
            (siglen key.algorithm)
            (signed_bytes body))
          8
          1
          (signed_bytes body)
          key
unfolding create_kernel_preamble
create_kernel_preamble-sign outside crypto n body desired_size key m e e' there =
    let call : ℕ → ℕ → Bytes → Option (Option Bytes) = λ size block_size m.
      sign outside crypto (kernel_fields m size block_size n body key) 8 1 size key in
    let padded_to : ℕ → ℕ = λ needed. if ltb needed desired_size then desired_size else needed in
    let made : ℕ → ℕ → Option (Option Bytes) = λ size needed.
      elim (outside.malloc 0 (padded_to needed)) [
        | none ↦ some none
        | some m ↦ call size (padded_to needed) m
      ] in
    ap (λ (x : ℕ). made x (u64 (x + siglen key.algorithm))) e
    ∙ ap (made (signed_bytes body)) e'
    ∙ option_some (some none) (call (signed_bytes body) (padded body desired_size key)) there
    ∙ ap (λ (h : Bytes). sign outside crypto h 8 1 (signed_bytes body) key)
        (kernel_fields-unsigned m (padded body desired_size key) n body key e)

-- With memory and a pair of keys, CreateKernelPreamble gives a preamble that VerifyKernelPreamble
-- accepts in a buffer with room for its parts and for the desired size, which has at least the
-- desired size, and which holds the numbers in their width and a copy of the body signature: for a
-- size of the signature that leaves room in 64 bits.
pub create_kernel_preamble-Accepted :
    (outside : Outside) (crypto : Crypto) (key : PrivateKey) (rsa : RsaKey)
    → Signs outside crypto key rsa
    → (n : KernelNumbers) (body : Pointer) (desired_size : ℕ) → IsBytes body.buf
    → sig_size_of body + 2048 < 2 ^ 64
    → (size : ℕ) → desired_size ≤ size
    → signed_bytes body + siglen key.algorithm ≤ size
    → size < 2 ^ 64
    → (h : Bytes) × (create_kernel_preamble outside crypto n body desired_size key ≡ some (some h))
      × (verify_kernel_preamble crypto h 0 size rsa ≡ success)
      × (desired_size ≤ le64 h 0)
      × HoldsKernel h n body
unfolding create_kernel_preamble kernel_fields
create_kernel_preamble-Accepted outside crypto key rsa laws n body desired_size hb fits size wide
      large fits' =
    let o = signed_bytes body in
    let block_size = padded body desired_size key in
    let small = siglen-le key.algorithm in
    let fits_block : block_size < 2 ^ 64 = ground arith in
    let room : o + siglen key.algorithm ≤ block_size = ground arith in
    let holds : block_size ≤ size = ground arith in
    let wanted : desired_size ≤ block_size = ground arith in
    let mem = laws.memory 0 block_size in
    let copied =
      body_copied outside crypto key rsa laws n body hb fits mem.m mem.bytes block_size fits_block
        room in
    let (h, e, s) =
      sign-Signed outside crypto key rsa laws (with_body mem.m block_size n body) copied.bytes 8 o o
        (omega arith) (omega arith) (omega arith) 1 in
    let size_is =
      made-block_size outside crypto key rsa laws n body hb fits mem.m mem.bytes block_size
        fits_block room h s in
    (
      h,
      create_kernel_preamble-sign outside crypto n body desired_size key mem.m (omega arith)
            (omega arith) mem.there
          ∙ e,
      (verify_kernel_preamble_iff crypto h 0 size rsa s.bytes (omega arith)).1 (
          made-IsKernelPreamble outside crypto key rsa laws n body hb fits mem.m mem.bytes
            block_size fits_block room h s size (omega (arith, size_is))),
      omega (arith, size_is),
      made-HoldsKernel outside crypto key rsa laws n body hb fits mem.m mem.bytes block_size
          fits_block room h s,
    )

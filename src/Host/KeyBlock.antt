-- ===== src/Host/KeyBlock.antt =====
-- KeyBlockCreate makes key blocks that KeyBlockVerify accepts.
use futility.Prelude.{ℕ, ◌+◌, ◌^◌, ◌≤◌, ◌<◌, ◌≡◌, ap, ◌∙◌, arith, true, false}
use futility.Prelude.{none, some, Option, option_some, u64}
use mathlib.Core.Path.{subst}
use futility.Prelude.Memory.{Bytes, IsBytes}
use futility.Verify.Crypto.{Crypto, RsaKey, siglen}
use futility.Verify.Signature
use futility.Verify.Defs.{public_key_to_rsa}
use futility.Verify.Blocks.{success, key_block_verify, sha512_digest_algorithm, safe_memcmp_eq}
use futility.Verify.KeyBlocks.{key_block_verify_hash_iff, key_block_verify_signature_iff}
use futility.Host.Structs.{PrivateKey, Outside, signature_copy, copy_from}
use futility.Host.Structs.{calculate_checksum}
use futility.Host.Create.{Pointer, key_size_of, key_block_fields, key_block_create, sign}
use futility.Host.Signing.{Signs, siglen-le}
use futility.Host.Signed.{sign-Signed}
use futility.Host.Checksum.{calculate_checksum-IsChecksum, safe_memcmp_eq-same}
use futility.Host.KeyBlockMade.{
  signed_bytes, both_made, key_block_fields-both_made, still_made, sum_copied,
}
use futility.Host.KeyBlockMade.{block_size_is, made-IsKeyBlock, made-Covers, sum-Covers, sum_size}
use futility.Host.KeyBlockMade.{sum_data_size, made-Agree, sum_is}

-- What follows the call of malloc.
abbrev after : Outside → Crypto → Pointer → PrivateKey → ℕ → ℕ → ℕ → Bytes → Option (Option Bytes)
after outside crypto data_key key flags n block_size m =
    let h = key_block_fields m n block_size flags data_key (some key) in
    elim (copy_from h 48 (calculate_checksum outside crypto 1 h n)) [
      | none ↦ none
      | some h ↦ sign outside crypto h 24 2 n key
    ]

key_block_create-sign :
    (outside : Outside) (crypto : Crypto) (data_key : Pointer) (key : PrivateKey) (flags : ℕ)
    (m t : Bytes)
    → u64 (signed_bytes data_key) ≡ signed_bytes data_key
    → u64 (signed_bytes data_key + 64) ≡ signed_bytes data_key + 64
    → u64 (signed_bytes data_key + 64 + siglen key.algorithm)
      ≡ signed_bytes data_key + 64 + siglen key.algorithm
    → outside.malloc 0 (signed_bytes data_key + 64 + siglen key.algorithm) ≡ some m
    → calculate_checksum outside crypto 1
        (both_made m (signed_bytes data_key + 64 + siglen key.algorithm) flags data_key key)
        (signed_bytes data_key)
      ≡ some t
    → key_block_create outside crypto data_key (some key) flags
      ≡ sign outside crypto
          (signature_copy
            (both_made m (signed_bytes data_key + 64 + siglen key.algorithm) flags data_key key)
            48
            t
            0)
          24
          2
          (signed_bytes data_key)
          key
unfolding key_block_create
key_block_create-sign outside crypto data_key key flags m t e e' e'' there sum =
    let n = signed_bytes data_key in
    let size = n + 64 + siglen key.algorithm in
    let made : ℕ → ℕ → Option (Option Bytes) = λ n block_size. elim (outside.malloc 0 block_size) [
      | none ↦ some none
      | some m ↦ after outside crypto data_key key flags n block_size m
    ] in
    let rest : Bytes → Option Bytes → Option (Option Bytes) =
      λ h r. elim (copy_from h 48 r) [ none ↦ none | some h ↦ sign outside crypto h 24 2 n key ] in
    ap (λ (x : ℕ). made x (u64 (x + 64 + siglen key.algorithm))) e
    ∙ ap (made n) e''
    ∙ option_some (some none) (after outside crypto data_key key flags n size) there
    ∙ ap (λ (h : Bytes). rest h (calculate_checksum outside crypto 1 h n))
        (key_block_fields-both_made m size flags data_key key e')
    ∙ ap (rest (both_made m size flags data_key key)) sum

-- With memory and a pair of keys, KeyBlockCreate gives a key block that KeyBlockVerify accepts in a
-- buffer with room for its parts, both by its checksum alone and with a public key that PublicKeyToRSA
-- reads as the one of the pair: for a size of the data key that leaves room in 64 bits.
pub key_block_create-Accepted :
    (outside : Outside) (crypto : Crypto) (key : PrivateKey) (rsa : RsaKey)
    → Signs outside crypto key rsa
    → (data_key : Pointer) (flags : ℕ) → IsBytes data_key.buf
    → key_size_of data_key + 8192 < 2 ^ 64
    → (size : ℕ) → signed_bytes data_key + 64 + siglen key.algorithm ≤ size
    → size < 2 ^ 64
    → (public : Bytes) (at : ℕ) → public_key_to_rsa public at ≡ some rsa
    → (h : Bytes) × (key_block_create outside crypto data_key (some key) flags ≡ some (some h))
      × ((any : Option (Bytes × ℕ)) → key_block_verify crypto h 0 size any true ≡ success)
      × (key_block_verify crypto h 0 size (some (public, at)) false ≡ success)
key_block_create-Accepted outside crypto key rsa laws data_key flags hk fits size large room public
      at pair =
    let n = signed_bytes data_key in
    let block_size = n + 64 + siglen key.algorithm in
    let small = siglen-le key.algorithm in
    let mem = laws.memory 0 block_size in
    let both = both_made mem.m block_size flags data_key key in
    let (t, et, cs) =
      calculate_checksum-IsChecksum outside crypto 1 (laws.memory 1 88) both n (omega arith)
        (laws.digest_bytes both n sha512_digest_algorithm) in
    let checked = signature_copy both 48 t 0 in
    let copied =
      sum_copied key rsa crypto flags data_key hk (omega arith) mem.m mem.bytes block_size
        (omega arith) (omega arith) t cs in
    let (h, e, s) =
      sign-Signed outside crypto key rsa laws checked copied.bytes 24 (n + 64) n (omega arith)
        (omega arith) (omega arith) 2 in
    let same =
      still_made key rsa crypto flags data_key hk (omega arith) mem.m mem.bytes block_size
        (omega arith) (omega arith) t cs in
    let size_is =
      block_size_is key rsa crypto flags data_key hk (omega arith) mem.m mem.bytes block_size
        (omega arith) (omega arith) t cs h s in
    let data_size =
      sum_data_size key rsa crypto flags data_key hk (omega arith) mem.m mem.bytes block_size
        (omega arith) (omega arith) t cs h s in
    let sums : safe_memcmp_eq 64
          (crypto.digest h 0 (Signature.data_size h 48) sha512_digest_algorithm) 0 h
          (Signature.sig_data h 48)
        ≡ true =
      rw data_size (
        subst (λ (d : Bytes). safe_memcmp_eq 64 d 0 h (Signature.sig_data h 48) ≡ true)
          (laws.digest_same both h n sha512_digest_algorithm (
            made-Agree key rsa crypto flags data_key hk (omega arith) mem.m mem.bytes block_size
              (omega arith) (omega arith) t cs h s))
          (safe_memcmp_eq-same 64 (crypto.digest both 0 n sha512_digest_algorithm) 0 h
            (Signature.sig_data h 48)
            (λ i l.
              ap (crypto.digest both 0 n sha512_digest_algorithm) (omega arith)
              ∙ sum_is key rsa crypto flags data_key hk (omega arith) mem.m mem.bytes block_size
                  (omega arith) (omega arith) t cs h s i l))) in
    let header =
      made-IsKeyBlock key rsa crypto flags data_key hk (omega arith) mem.m mem.bytes block_size
        (omega arith) (omega arith) t cs h s size (omega (arith, size_is)) in
    (
      h,
      key_block_create-sign outside crypto data_key key flags mem.m t (omega arith) (omega arith)
            (omega arith) mem.there et
          ∙ ap (λ (c : Bytes). sign outside crypto c 24 2 n key) same
          ∙ e,
      λ any. (key_block_verify_hash_iff crypto h 0 size s.bytes (omega arith) any).1 (
        header,
        sum-Covers key rsa crypto flags data_key hk (omega arith) mem.m mem.bytes block_size
            (omega arith) (omega arith) t cs h s,
        sum_size key rsa crypto flags data_key hk (omega arith) mem.m mem.bytes block_size
            (omega arith) (omega arith) t cs h s,
        sums,
      ),
      (key_block_verify_signature_iff crypto h 0 size s.bytes (omega arith) public at).1 (
        header,
        made-Covers key rsa crypto flags data_key hk (omega arith) mem.m mem.bytes block_size
            (omega arith) (omega arith) t cs h s,
        (rsa, pair, s.signed size (omega (arith, size_is))),
      ),
    )

-- ===== src/Host/Structs.antt =====
-- The keys and signatures of the host library: PublicKeyInit and PublicKeyCopy of
-- libvboot_util/firmware/vboot_common.c, and libvboot_util/host/host_signature.c, with the tables of
-- cryptolib/padding.c. A structure is an offset in a buffer; each call of malloc gives a buffer of its
-- own. Where C uses a NULL pointer the result is `none`.
use futility.Prelude.{ℕ, ◌+◌, ◌%◌, ltb, Option, none, some, if◌then◌else◌, get_or}
use futility.Prelude.{List, [], ◌∷◌, length}
use futility.Prelude.Memory.{Bytes, put_text}
use futility.Prelude.Copy.{put64, copy}
use futility.Verify.Crypto.{Crypto, num_algorithms, siglen}
use futility.Verify.Inside.{offset_of}
use futility.Verify.PublicKey
use futility.Verify.Signature
use futility.Verify.Blocks.{sha512_digest_algorithm}

-- VbPrivateKey; OpenSSL's key is a handle.
pub record PrivateKey : Type 0 where
  pub rsa_private_key : ℕ
  pub algorithm : ℕ

-- What the library calls: `malloc k n` is a buffer of `n` bytes with whatever it holds, or NULL, for
-- the call `k`; `encrypt key n b` is RSA_private_encrypt of the first `n` bytes of `b` with PKCS #1
-- padding: the number of bytes that it writes, and what they are.
pub record Outside : Type 0 where
  pub malloc : ℕ → ℕ → Option Bytes
  pub encrypt : ℕ → ℕ → Bytes → Option (ℕ × Bytes)

-- hash_type_map, for the algorithms below kNumAlgorithms: SHA-1, SHA-256 and SHA-512 by turns.
abbrev pub hash_type : ℕ → ℕ
hash_type algorithm = algorithm % 3

abbrev pub hash_sizes : List ℕ
hash_sizes = 20 ∷ 32 ∷ 64 ∷ []

-- hash_size_map
unfoldable pub hash_size : ℕ → ℕ
hash_size algorithm = get_or hash_sizes (hash_type algorithm) 0

abbrev pub sha1_digestinfo : List ℕ
sha1_digestinfo =
    0x30 ∷ 0x21 ∷ 0x30 ∷ 0x09 ∷ 0x06 ∷ 0x05 ∷ 0x2b ∷ 0x0e ∷ 0x03 ∷ 0x02 ∷ 0x1a ∷ 0x05 ∷ 0x00 ∷ 0x04
    ∷ 0x14 ∷ []

abbrev pub sha256_digestinfo : List ℕ
sha256_digestinfo =
    0x30 ∷ 0x31 ∷ 0x30 ∷ 0x0d ∷ 0x06 ∷ 0x09 ∷ 0x60 ∷ 0x86 ∷ 0x48 ∷ 0x01 ∷ 0x65 ∷ 0x03 ∷ 0x04 ∷ 0x02
    ∷ 0x01 ∷ 0x05 ∷ 0x00 ∷ 0x04 ∷ 0x20 ∷ []

abbrev pub sha512_digestinfo : List ℕ
sha512_digestinfo =
    0x30 ∷ 0x51 ∷ 0x30 ∷ 0x0d ∷ 0x06 ∷ 0x09 ∷ 0x60 ∷ 0x86 ∷ 0x48 ∷ 0x01 ∷ 0x65 ∷ 0x03 ∷ 0x04 ∷ 0x02
    ∷ 0x03 ∷ 0x05 ∷ 0x00 ∷ 0x04 ∷ 0x40 ∷ []

-- hash_digestinfo_map, with digestinfo_size_map as its length.
unfoldable pub digestinfo : ℕ → List ℕ
digestinfo algorithm =
    get_or (sha1_digestinfo ∷ sha256_digestinfo ∷ sha512_digestinfo ∷ []) (hash_type algorithm) []

-- PublicKeyInit, for a key at `key` and its data at `key_data`.
unfoldable pub public_key_init : Bytes → ℕ → ℕ → ℕ → Bytes
public_key_init b key key_data key_size =
    put64
      (put64 (put64 (put64 b key (offset_of key key_data)) (key + 8) key_size) (key + 16)
        num_algorithms)
      (key + 24) 0

-- PublicKeyCopy of the key at `p` of the buffer `src`, whether or not it returns 0.
unfoldable pub public_key_copy : Bytes → ℕ → Bytes → ℕ → Bytes
public_key_copy b dest src p =
    if ltb (PublicKey.key_size b dest) (PublicKey.key_size src p)
    then b
    else let sized =
        put64
          (put64 (put64 b (dest + 8) (PublicKey.key_size src p)) (dest + 16)
            (PublicKey.algorithm src p))
          (dest + 24) (PublicKey.key_version src p) in
      copy sized (PublicKey.key_data sized dest) src (PublicKey.key_data src p)
        (PublicKey.key_size src p)

-- SignatureInit
unfoldable pub signature_init : Bytes → ℕ → ℕ → ℕ → ℕ → Bytes
signature_init b sig sig_data sig_size data_size =
    put64 (put64 (put64 b sig (offset_of sig sig_data)) (sig + 8) sig_size) (sig + 16) data_size

-- SignatureCopy of the signature at `p` of the buffer `src`, whether or not it returns 0.
unfoldable pub signature_copy : Bytes → ℕ → Bytes → ℕ → Bytes
signature_copy b dest src p =
    if ltb (Signature.sig_size b dest) (Signature.sig_size src p)
    then b
    else let sized =
        put64 (put64 b (dest + 8) (Signature.sig_size src p)) (dest + 16)
          (Signature.data_size src p) in
      copy sized (Signature.sig_data sized dest) src (Signature.sig_data src p)
        (Signature.sig_size src p)

-- `SignatureCopy(dest, sigtmp)`, where the pointer may be NULL.
abbrev pub copy_from : Bytes → ℕ → Option Bytes → Option Bytes
copy_from b dest none = none
copy_from b dest (some src) = some (signature_copy b dest src 0)

-- The digest with its prefix, in a buffer that malloc gave.
abbrev pub signature_digest : Bytes → ℕ → Bytes → Bytes
signature_digest m algorithm digest =
    copy (put_text m 0 (digestinfo algorithm)) (length (digestinfo algorithm)) digest 0
      (hash_size algorithm)

module _ (outside : Outside) (crypto : Crypto) where
  -- SignatureAlloc, as the call `k` of malloc: the signature is at the start of its buffer.
  unfoldable pub signature_alloc : ℕ → ℕ → ℕ → Option Bytes
  signature_alloc k sig_size data_size = elim (outside.malloc k (24 + sig_size)) [
    | none ↦ none
    | some m ↦ some (put64 (put64 (put64 m 0 24) 8 sig_size) 16 data_size)
  ]

  -- CalculateChecksum of `size` bytes at the start of a buffer.
  unfoldable pub calculate_checksum : ℕ → Bytes → ℕ → Option Bytes
  calculate_checksum k b size =
      let checksum = crypto.digest b 0 size sha512_digest_algorithm in
      elim (signature_alloc k 64 0) [
        | none ↦ none
        | some m ↦
            let sig = put64 (put64 (put64 m 0 24) 8 64) 16 size in
            some (copy sig (Signature.sig_data sig 0) checksum 0 64)
      ]

  -- CalculateHash of `size` bytes at the start of a buffer.
  unfoldable pub calculate_hash : ℕ → Bytes → ℕ → PrivateKey → Option Bytes
  calculate_hash k b size key =
      let n = hash_size key.algorithm in
      elim (signature_alloc k n size) [
        | none ↦ none
        | some sig ↦
            some (copy sig (Signature.sig_data sig 0) (crypto.digest b 0 size key.algorithm) 0 n)
      ]

  -- CalculateSignature of `size` bytes at the start of a buffer, with the calls `k` and `k + 1` of
  -- malloc.
  unfoldable pub calculate_signature : ℕ → Bytes → ℕ → PrivateKey → Option Bytes
  calculate_signature k b size key =
      let digest = crypto.digest b 0 size (hash_type key.algorithm) in
      let len = hash_size key.algorithm + length (digestinfo key.algorithm) in
      elim (outside.malloc k len) [
        | none ↦ none
        | some m ↦ elim (signature_alloc (k + 1) (siglen key.algorithm) size) [
          | none ↦ none
          | some sig ↦
              elim (outside.encrypt key.rsa_private_key len
                (signature_digest m key.algorithm digest)) [
                  | none ↦ none
                  | some (n, s) ↦ some (copy sig (Signature.sig_data sig 0) s 0 n)
                ]
        ]
      ]

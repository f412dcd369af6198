-- ===== src/Host/Signing.antt =====
-- What CalculateSignature gives, for a pair of keys that match.
use futility.Prelude.{ℕ, ◌+◌, ◌^◌, ◌≤◌, ◌<◌, ◌≡◌, inl, arith, true, u64, some}
use futility.Prelude.{zero, suc, List, [], ◌∷◌, get_or, leb, ◌&&◌, Bool, refl, ◌∙◌, ap, length}
use mathlib.Core.Path.{subst}
use futility.Prelude.Memory.{Bytes, IsBytes, Agree, le64, le64_same}
use futility.Prelude.Copy.{put64, copy, copy_ne, copy_same, le64-put64, put64-IsBytes, copy-IsBytes}
use futility.Prelude.Stores.{le64-put64_ne}
use futility.Verify.Crypto.{Crypto, RsaKey, num_algorithms, siglen, siglen_map}
use futility.Verify.Signature
use futility.Host.Create.{zeroed}
use futility.Host.Structs.{PrivateKey, Outside, hash_type, hash_size, digestinfo, signature_digest}
use futility.Host.Structs.{signature_alloc, calculate_signature}

-- No entry of a table is above a bound.
abbrev all_le : List ℕ → ℕ → Bool
all_le [] bound = true
all_le (x ∷ xs) bound = leb x bound && all_le xs bound

get_or-le : (xs : List ℕ) (i bound : ℕ) → all_le xs bound ≡ true → get_or xs i 0 ≤ bound
get_or-le [] i bound h = omega arith
get_or-le (x ∷ xs) zero bound h = ground arith
get_or-le (x ∷ xs) (suc i) bound h = get_or-le xs i bound (ground arith)

pub siglen-le : (algorithm : ℕ) → siglen algorithm ≤ 1024
unfolding siglen
siglen-le algorithm = get_or-le siglen_map algorithm 1024 refl

-- The header that SignatureAlloc makes, with a signature behind it.
abbrev pub allocated : Bytes → ℕ → ℕ → Bytes
allocated m sig_size data_size = put64 (put64 (put64 m 0 24) 8 sig_size) 16 data_size

pub allocated-offset : (m : Bytes) (n size : ℕ) → le64 (allocated m n size) 0 ≡ 24
allocated-offset m n size =
    le64-put64_ne (put64 (put64 m 0 24) 8 n) 16 size 0 (inl (omega arith))
    ∙ le64-put64_ne (put64 m 0 24) 8 n 0 (inl (omega arith))
    ∙ le64-put64 m 0 24 (omega arith)

pub allocated-sig_size : (m : Bytes) (n size : ℕ) → n < 2 ^ 64 → le64 (allocated m n size) 8 ≡ n
allocated-sig_size m n size h =
    le64-put64_ne (put64 (put64 m 0 24) 8 n) 16 size 8 (inl (omega arith))
    ∙ le64-put64 (put64 m 0 24) 8 n h

pub zeroed-IsBytes : (b : Bytes) (o n : ℕ) → IsBytes b → IsBytes (zeroed b o n)
unfolding zeroed
zeroed-IsBytes b o n h i = ground (arith, h i)

module _ (outside : Outside) (crypto : Crypto) where
  -- A block of memory that malloc gives.
  pub record Block (k n : ℕ) : Type 0 where
    pub m : Bytes
    pub there : outside.malloc k n ≡ some m
    pub bytes : IsBytes m

  -- RSA_private_encrypt of a digest with its prefix: a signature of the length of the algorithm, that
  -- RSAVerify accepts wherever it stands.
  pub record Encrypted (key : PrivateKey) (rsa : RsaKey) (m hash : Bytes) : Type 0 where
    pub signature : Bytes
    pub done :
        outside.encrypt key.rsa_private_key
          (hash_size key.algorithm + length (digestinfo key.algorithm))
          (signature_digest m key.algorithm hash)
        ≡ some (siglen key.algorithm, signature)
    pub bytes : IsBytes signature
    pub accepted :
        (b : Bytes) (o : ℕ)
        → ((i : ℕ) → i < siglen key.algorithm → b (o + i) ≡ signature i)
        → crypto.rsa_verify rsa b o (siglen key.algorithm) key.algorithm hash ≡ true

  -- What the host library relies on: there is memory, a digest depends on the bytes that it covers
  -- and on the type of its hash, and the two keys are a pair.
  pub record Signs (key : PrivateKey) (rsa : RsaKey) : Type 0 where
    pub memory : (k n : ℕ) → Block k n
    pub digest_same :
        (a b : Bytes) (n algorithm : ℕ)
        → Agree n a b
        → crypto.digest a 0 n algorithm ≡ crypto.digest b 0 n algorithm
    pub digest_type :
        (b : Bytes) (n : ℕ)
        → crypto.digest b 0 n (hash_type key.algorithm) ≡ crypto.digest b 0 n key.algorithm
    pub digest_bytes : (b : Bytes) (n algorithm : ℕ) → IsBytes (crypto.digest b 0 n algorithm)
    pub encrypts : (m hash : Bytes) → Encrypted key rsa m hash
    pub same_algorithm : rsa.algorithm ≡ key.algorithm
    pub known : key.algorithm < num_algorithms

  -- A signature of `size` bytes of `b`, at the start of its buffer.
  pub record Calculated (key : PrivateKey) (rsa : RsaKey) (b t : Bytes) (size : ℕ) : Type 0 where
    pub sig_size : Signature.sig_size t 0 ≡ siglen key.algorithm
    pub data_size : Signature.data_size t 0 ≡ size
    pub bytes : IsBytes t
    pub accepted :
        (c : Bytes) (o : ℕ)
        → ((i : ℕ) → i < siglen key.algorithm → c (o + i) ≡ t (Signature.sig_data t 0 + i))
        → crypto.rsa_verify rsa c o
            (siglen key.algorithm)
            key.algorithm
            (crypto.digest b 0 size key.algorithm)
          ≡ true

  module _ (key : PrivateKey) (rsa : RsaKey) (laws : Signs key rsa) (b : Bytes) (size k : ℕ)
      (fits : size < 2 ^ 64) where
    abbrev digest_of : Bytes
    digest_of = crypto.digest b 0 size (hash_type key.algorithm)

    signed_with :
        (m a : Bytes)
        → IsBytes a
        → (e : Encrypted key rsa m digest_of)
        → Calculated key rsa b
            (copy (allocated a (siglen key.algorithm) size) 24 e.signature 0 (siglen key.algorithm))
            size
    signed_with m a ha e =
        let n = siglen key.algorithm in
        let sig = allocated a n size in
        let t = copy sig 24 e.signature 0 n in
        let before : (o : ℕ) → o + 8 ≤ 24 → le64 t o ≡ le64 sig o = λ o h.
          le64_same t sig o (λ i lo hi. copy_ne sig e.signature 24 0 n i (inl (omega arith))) in
        let start : Signature.sig_data t 0 ≡ 24 =
          omega (arith, before 0 (omega arith), allocated-offset a n size) in
        record {
          sig_size =
              before 8 (omega arith)
              ∙ allocated-sig_size a n size (omega (arith, siglen-le key.algorithm));
          data_size = before 16 (omega arith) ∙ le64-put64 _ 16 size fits;
          bytes =
              copy-IsBytes sig e.signature 24 0 n
                (put64-IsBytes _ 16 size (put64-IsBytes _ 8 n (put64-IsBytes a 0 24 ha))) e.bytes;
          accepted = λ c o same.
              subst (λ (h : Bytes). crypto.rsa_verify rsa c o n key.algorithm h ≡ true)
                (laws.digest_type b size)
                (e.accepted c o (λ i h.
                  same i h
                  ∙ ap (λ (p : ℕ). t (p + i)) start
                  ∙ copy_same sig e.signature 24 0 n i h
                  ∙ ap e.signature (omega arith)));
        }

    pub calculate_signature-Calculated :
        (t : Bytes) × (calculate_signature outside crypto k b size key ≡ some t)
        × Calculated key rsa b t size
    unfolding calculate_signature signature_alloc
    calculate_signature-Calculated =
        let first = laws.memory k (hash_size key.algorithm + length (digestinfo key.algorithm)) in
        let second = laws.memory (k + 1) (24 + siglen key.algorithm) in
        let e = laws.encrypts first.m digest_of in
        let start : u64 (0 + le64 (allocated second.m (siglen key.algorithm) size) 0) ≡ 24 =
          omega (arith, allocated-offset second.m (siglen key.algorithm) size) in
        (
          _,
          rw (calculate_signature, first.there, signature_alloc, second.there, e.done, start) refl,
          signed_with first.m second.m second.bytes e,
        )

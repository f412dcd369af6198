-- ===== src/Host/Checksum.antt =====
-- What CalculateChecksum gives.
use futility.Prelude.{
  ℕ, zero, suc, ◌+◌, ◌^◌, ◌<◌, ◌≤◌, ◌≡◌, inl, arith, u64, some, refl, ◌∙◌, ap, true,
}
use futility.Prelude.Memory.{Bytes, IsBytes, le64, le64_same}
use futility.Prelude.Copy.{copy, copy_ne, copy_same, le64-put64, put64-IsBytes, copy-IsBytes}
use futility.Verify.Crypto.{Crypto}
use futility.Verify.Signature
use futility.Verify.Blocks.{sha512_digest_algorithm, safe_memcmp_eq}
use futility.Host.Structs.{Outside, signature_alloc, calculate_checksum}
use futility.Host.Signing.{Block, allocated, allocated-offset, allocated-sig_size}

-- The checksum `t`, at the start of its buffer, of the first `size` bytes of `b`.
pub record IsChecksum (crypto : Crypto) (b t : Bytes) (size : ℕ) : Type 0 where
  pub sig_size : Signature.sig_size t 0 ≡ 64
  pub data_size : Signature.data_size t 0 ≡ size
  pub bytes : IsBytes t
  pub sum :
      (i : ℕ)
      → i < 64
      → t (Signature.sig_data t 0 + i) ≡ crypto.digest b 0 size sha512_digest_algorithm i

-- SafeMemcmp of bytes that are the same.
pub safe_memcmp_eq-same :
    (n : ℕ) (a : Bytes) (o : ℕ) (b : Bytes) (p : ℕ)
    → ((i : ℕ) → i < n → a (o + i) ≡ b (p + i))
    → safe_memcmp_eq n a o b p ≡ true
unfolding safe_memcmp_eq
safe_memcmp_eq-same zero a o b p h = refl
safe_memcmp_eq-same (suc n) a o b p h =
    let rest =
      safe_memcmp_eq-same n a (o + 1) b (p + 1)
        (λ i l. ap a (omega arith) ∙ h (i + 1) (omega arith) ∙ ap b (omega arith)) in
    let first : a o ≡ b p = ap a (omega arith) ∙ h 0 (omega arith) ∙ ap b (omega arith) in
    ground (arith, first, rest)

module _ (outside : Outside) (crypto : Crypto) (k : ℕ) (block : Block outside crypto k 88)
    (b : Bytes) (size : ℕ) (fits : size < 2 ^ 64)
    (hd : IsBytes (crypto.digest b 0 size sha512_digest_algorithm)) where
  abbrev sum_of : Bytes
  sum_of = crypto.digest b 0 size sha512_digest_algorithm

  abbrev checksum : Bytes
  checksum = copy (allocated (allocated block.m 64 0) 64 size) 24 sum_of 0 64

  checksum-IsChecksum : IsChecksum crypto b checksum size
  checksum-IsChecksum =
      let a = allocated block.m 64 0 in
      let ha : IsBytes a =
        put64-IsBytes _ 16 0 (put64-IsBytes _ 8 64 (put64-IsBytes block.m 0 24 block.bytes)) in
      let sig = allocated a 64 size in
      let before : (o : ℕ) → o + 8 ≤ 24 → le64 checksum o ≡ le64 sig o = λ o h.
        le64_same checksum sig o (λ i lo hi. copy_ne sig sum_of 24 0 64 i (inl (omega arith))) in
      let start : Signature.sig_data checksum 0 ≡ 24 =
        omega (arith, before 0 (omega arith), allocated-offset a 64 size) in
      record {
        sig_size = before 8 (omega arith) ∙ allocated-sig_size a 64 size (omega arith);
        data_size = before 16 (omega arith) ∙ le64-put64 _ 16 size fits;
        bytes =
            copy-IsBytes sig sum_of 24 0 64
              (put64-IsBytes _ 16 size (put64-IsBytes _ 8 64 (put64-IsBytes a 0 24 ha))) hd;
        sum = λ i h.
            ap (λ (p : ℕ). checksum (p + i)) start
            ∙ copy_same sig sum_of 24 0 64 i h
            ∙ ap sum_of (omega arith);
      }

  pub calculate_checksum-IsChecksum :
      (t : Bytes) × (calculate_checksum outside crypto k b size ≡ some t)
      × IsChecksum crypto b t size
  unfolding calculate_checksum signature_alloc
  calculate_checksum-IsChecksum =
      let start : u64 (0 + le64 (allocated (allocated block.m 64 0) 64 size) 0) ≡ 24 =
        omega (arith, allocated-offset (allocated block.m 64 0) 64 size) in
      (
        checksum,
        rw (calculate_checksum, signature_alloc, block.there, start) refl,
        checksum-IsChecksum,
      )

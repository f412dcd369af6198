-- ===== src/Host/Signed.antt =====
-- A structure that is signed at the end of its making: the verifiers accept its signature.
use futility.Prelude.{
  ◌⊎◌, inl, ℕ, ◌+◌, ◌-◌, ◌^◌, ◌≤◌, ◌<◌, ◌≡◌, arith, true, some, refl, ap, sym, ◌∙◌,
}
use mathlib.Core.Path.{subst}
use futility.Prelude.Memory.{Bytes, IsBytes, Agree, le64}
use futility.Verify.Crypto.{Crypto, RsaKey, siglen}
use futility.Verify.Signature
use futility.Verify.Laws.{IsSigned}
use futility.Host.Structs.{PrivateKey, Outside, signature_init, signature_copy}
use futility.Host.Create.{sign}
use futility.Host.Copied.{signature_copy-Copied, signature_copy_same}
use futility.Host.Signing.{Signs, Calculated, calculate_signature-Calculated, siglen-le}

-- The signature at `d` is in its place, `o`, and is a good one of the first `n` bytes of `h`; nothing
-- else in front of `o` has changed from `b`.
pub record Signed (crypto : Crypto) (key : PrivateKey) (rsa : RsaKey) (b : Bytes) (d o n : ℕ)
    (h : Bytes) : Type 0 where
  pub offset : le64 h d ≡ o - d
  pub sig_size : le64 h (d + 8) ≡ siglen key.algorithm
  pub data_size : le64 h (d + 16) ≡ n
  pub rest : (i : ℕ) → i < o → (i < d) ⊎ (d + 24 ≤ i) → h i ≡ b i
  pub kept : (i : ℕ) → i < o → h i ≡ signature_init b d o (siglen key.algorithm) n i
  pub bytes : IsBytes h
  pub signed : (size : ℕ) → n ≤ size → IsSigned crypto h 0 size d rsa

module _ (outside : Outside) (crypto : Crypto) (key : PrivateKey) (rsa : RsaKey)
    (laws : Signs outside crypto key rsa) (b : Bytes) (hb : IsBytes b) (d o n : ℕ)
    (after : d + 24 ≤ n) (behind : n ≤ o) (fits : o + 1024 < 2 ^ 64) where
  -- What the structure is before it is signed.
  abbrev pub unsigned : Bytes
  unsigned = signature_init b d o (siglen key.algorithm) n

  made :
      (t : Bytes)
      → Calculated outside crypto key rsa unsigned t n
      → Signed crypto key rsa b d o n (signature_copy unsigned d t 0)
  made t c =
      let small = siglen-le key.algorithm in
      let h = signature_copy unsigned d t 0 in
      let copied =
        signature_copy-Copied b d o (siglen key.algorithm) n t 0 hb c.bytes (omega arith)
          (omega arith) (omega arith) (omega (arith, c.sig_size)) in
      let same : Agree n unsigned h = λ i l. sym (
        signature_copy_same b d o (siglen key.algorithm) n t 0 i hb (omega arith) (omega arith)
          (omega arith) (omega arith) c.sig_size c.data_size (omega arith)) in
      let place : Signature.sig_data h d ≡ o = omega (arith, copied.offset) in
      let size_is : le64 h (d + 8) ≡ siglen key.algorithm = copied.sig_size ∙ c.sig_size in
      let data_size_is : le64 h (d + 16) ≡ n = copied.data_size_is ∙ c.data_size in
      let verified : crypto.rsa_verify rsa h o (siglen key.algorithm) key.algorithm
            (crypto.digest h 0 n key.algorithm)
          ≡ true =
        subst
          (λ (x : Bytes). crypto.rsa_verify rsa h o (siglen key.algorithm) key.algorithm x ≡ true)
          (laws.digest_same unsigned h n key.algorithm same)
          (c.accepted h o (λ i l. copied.data_is i (omega (arith, l, c.sig_size)))) in
      record {
        offset = copied.offset;
        sig_size = size_is;
        data_size = data_size_is;
        rest = λ i l out. copied.rest i out (inl l);
        kept = λ i l.
            signature_copy_same b d o (siglen key.algorithm) n t 0 i hb (omega arith) (omega arith)
              (omega arith) (omega arith) c.sig_size c.data_size l;
        bytes = copied.bytes;
        signed = λ size large. record {
          known = omega (arith, laws.same_algorithm, laws.known);
          full_length = size_is ∙ ap siglen (sym laws.same_algorithm);
          within = omega (arith, data_size_is);
          verified =
              subst
                (λ (a : ℕ).
                  crypto.rsa_verify rsa h (Signature.sig_data h d) (siglen a) a
                    (crypto.digest h 0 (Signature.data_size h d) a)
                  ≡ true)
                (sym laws.same_algorithm) (rw (place, data_size_is) verified);
        };
      }

  pub sign-Signed :
      (k : ℕ)
      → (h : Bytes) × (sign outside crypto unsigned d k n key ≡ some (some h))
        × Signed crypto key rsa b d o n h
  sign-Signed k =
      let (t, e, c) =
        calculate_signature-Calculated outside crypto key rsa laws unsigned n k (omega arith) in
      (signature_copy unsigned d t 0, rw (sign, e) refl, made t c)

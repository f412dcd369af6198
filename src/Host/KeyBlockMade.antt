-- ===== src/Host/KeyBlockMade.antt =====
-- What KeyBlockCreate stores in a key block, and what KeyBlockVerify reads of it.
use futility.Prelude.{ℕ, ◌+◌, ◌-◌, ◌^◌, ◌≤◌, ◌<◌, ◌⊎◌, inl, inr, ◌≡◌, refl, ap, ◌∙◌, sym, arith}
use futility.Prelude.{some, u64, List, [], ◌∷◌}
use mathlib.Core.Path.{fun_ext}
use futility.Prelude.Memory.{Bytes, IsBytes, Agree, le64, le32_same, le64_same, put_text, memcmp_eq}
use futility.Prelude.Stores.{Store, store32, store64, stores, stores-IsBytes}
use futility.Prelude.Stores.{last32_lem, last64_lem}
use futility.Verify.Crypto.{Crypto, RsaKey, siglen}
use futility.Verify.Signature
use futility.Verify.Blocks.{key_block_magic, sha512_digest_algorithm}
use futility.Verify.KeyBlocks.{IsKeyBlock, Covers}
use futility.Verify.Laws.{PublicKeyInside}
use futility.Prelude.Copy.{put64}
use futility.Prelude.Memory.{memcmp_eq_same, put32}
use futility.Host.Structs.{PrivateKey, signature_init, signature_copy}
use futility.Host.Structs.{public_key_init, public_key_copy}
use futility.Host.Create.{Pointer, key_size_of, key_block_fields}
use futility.Host.Copied.{Copied, signature_copy-Copied, signature_copy_same}
use futility.Host.Inits.{signature_init_same, signature_init-swap, signature_init-offset}
use futility.Host.Inits.{signature_init-sig_size, signature_init-data_size, signature_init_ne}
use futility.Host.Inits.{signature_init-IsBytes}
use futility.Host.CopiedKey.{CopiedKey, public_key_copy-CopiedKey}
use futility.Host.Checksum.{IsChecksum}
use futility.Host.Signing.{siglen-le}
use futility.Host.Signed.{Signed}

-- The scalar fields, in the order of their stores, behind the magic.
abbrev pub scalars : ℕ → ℕ → List Store
scalars block_size flags =
    store32 8 2 ∷ store32 12 1 ∷ store64 16 block_size ∷ store64 72 flags ∷ []

abbrev pub base : Bytes → ℕ → ℕ → Bytes
base m block_size flags = stores (put_text m 0 key_block_magic) (scalars block_size flags)

abbrev pub with_key : Bytes → ℕ → ℕ → Pointer → Bytes
with_key m block_size flags data_key =
    public_key_copy (public_key_init (base m block_size flags) 80 112 (key_size_of data_key)) 80
      data_key.buf data_key.at

abbrev pub signed_bytes : Pointer → ℕ
signed_bytes data_key = 112 + key_size_of data_key

-- The structure of the signature is made first: the two do not meet.
abbrev pub room_made : Bytes → ℕ → ℕ → Pointer → PrivateKey → Bytes
room_made m block_size flags data_key key =
    signature_init (with_key m block_size flags data_key) 24 (signed_bytes data_key + 64)
      (siglen key.algorithm) (signed_bytes data_key)

-- Both structures.
abbrev pub both_made : Bytes → ℕ → ℕ → Pointer → PrivateKey → Bytes
both_made m block_size flags data_key key =
    signature_init (room_made m block_size flags data_key key) 48 (signed_bytes data_key) 64
      (signed_bytes data_key)

pub key_block_fields-both_made :
    (m : Bytes) (block_size flags : ℕ) (data_key : Pointer) (key : PrivateKey)
    → u64 (signed_bytes data_key + 64) ≡ signed_bytes data_key + 64
    → key_block_fields m (signed_bytes data_key) block_size flags data_key (some key)
      ≡ both_made m block_size flags data_key key
unfolding key_block_fields
key_block_fields-both_made m block_size flags data_key key e =
    let n = signed_bytes data_key in
    let keyed = with_key m block_size flags data_key in
    ap (λ (o : ℕ). signature_init (signature_init keyed 48 n 64 n) 24 o (siglen key.algorithm) n) e
    ∙ signature_init-swap keyed 48 24 n (n + 64) 64 (siglen key.algorithm) n n (omega arith)

module _ (key : PrivateKey) (rsa : RsaKey) (crypto : Crypto) (flags : ℕ) (data_key : Pointer)
    (key_bytes : IsBytes data_key.buf) (fits : signed_bytes data_key + 4096 < 2 ^ 64) (m : Bytes)
    (hm : IsBytes m) (block_size : ℕ) (fits_block : block_size < 2 ^ 64)
    (room : signed_bytes data_key + 64 + siglen key.algorithm ≤ block_size) (t : Bytes)
    (cs : IsChecksum crypto
      (both_made m block_size flags data_key key)
      t
      (signed_bytes data_key)) where
  key_copied :
      CopiedKey
        (base m block_size flags)
        (with_key m block_size flags data_key)
        80
        112
        data_key.buf
        data_key.at
  key_copied =
      public_key_copy-CopiedKey (base m block_size flags) 80 112 data_key.buf data_key.at
        (stores-IsBytes (put_text m 0 key_block_magic) (scalars block_size flags)
          (λ i. ground (arith, hm i)))
        key_bytes (omega arith) (omega arith)

  whole-IsBytes : IsBytes (room_made m block_size flags data_key key)
  whole-IsBytes =
      signature_init-IsBytes (with_key m block_size flags data_key) 24 (signed_bytes data_key + 64)
        (siglen key.algorithm) (signed_bytes data_key) key_copied.bytes

  pub sum_copied :
      Copied
        (room_made m block_size flags data_key key)
        (signature_copy (both_made m block_size flags data_key key) 48 t 0)
        48
        (signed_bytes data_key)
        (Signature.sig_size t 0)
        (Signature.data_size t 0)
        t
        (Signature.sig_data t 0)
  sum_copied =
      signature_copy-Copied (room_made m block_size flags data_key key) 48 (signed_bytes data_key)
        64 (signed_bytes data_key) t 0 whole-IsBytes cs.bytes (omega arith) (omega arith)
        (omega arith) (omega (arith, cs.sig_size))

  -- The structure of the signature is still as it was made.
  at_sig :
      (o : ℕ)
      → 24 ≤ o
      → o + 8 ≤ 48
      → le64 (signature_copy (both_made m block_size flags data_key key) 48 t 0) o
        ≡ le64 (room_made m block_size flags data_key key) o
  at_sig o a b =
      le64_same _ _ o (λ i lo hi. sum_copied.rest i (inl (omega arith)) (inl (omega arith)))

  pub still_made :
      signature_copy (both_made m block_size flags data_key key) 48 t 0
      ≡ signature_init
          (signature_copy (both_made m block_size flags data_key key) 48 t 0)
          24
          (signed_bytes data_key + 64)
          (siglen key.algorithm)
          (signed_bytes data_key)
  still_made =
      let b = with_key m block_size flags data_key in
      let n = signed_bytes data_key in
      let l = siglen key.algorithm in
      let small = siglen-le key.algorithm in
      fun_ext (λ i. sym (
        signature_init_same (signature_copy (both_made m block_size flags data_key key) 48 t 0) 24
          (n + 64) l n i sum_copied.bytes (omega arith) (omega arith)
          (at_sig 24 (omega arith) (omega arith)
            ∙ signature_init-offset b 24 (n + 64) l n (omega arith) (omega arith))
          (at_sig 32 (omega arith) (omega arith)
            ∙ signature_init-sig_size b 24 (n + 64) l n (omega arith))
          (at_sig 40 (omega arith) (omega arith)
            ∙ signature_init-data_size b 24 (n + 64) l n (omega arith))))

  module _ (h : Bytes)
      (s : Signed crypto key rsa
        (signature_copy (both_made m block_size flags data_key key) 48 t 0)
        24
        (signed_bytes data_key + 64)
        (signed_bytes data_key)
        h) where
    in_key_bytes :
        (i : ℕ)
        → (i < 24) ⊎ (72 ≤ i)
        → i < signed_bytes data_key
        → h i ≡ with_key m block_size flags data_key i
    in_key_bytes i out low =
        s.rest i (omega arith) (ground arith)
        ∙ sum_copied.rest i (ground arith) (inl low)
        ∙ signature_init_ne (with_key m block_size flags data_key) 24 (signed_bytes data_key + 64)
            (siglen key.algorithm) (signed_bytes data_key) i (ground arith)

    in_key :
        (o : ℕ) → 72 ≤ o → o + 8 ≤ 112 → le64 h o ≡ le64 (with_key m block_size flags data_key) o
    in_key o a b = le64_same h _ o (λ i lo hi. in_key_bytes i (inr (omega arith)) (omega arith))

    at_sum :
        (o : ℕ)
        → 48 ≤ o
        → o + 8 ≤ 72
        → le64 h o ≡ le64 (signature_copy (both_made m block_size flags data_key key) 48 t 0) o
    at_sum o a b = le64_same h _ o (λ i lo hi. s.rest i (omega arith) (inr (omega arith)))

    header : (i : ℕ) → (i < 24) ⊎ (72 ≤ i) → i < 80 → h i ≡ base m block_size flags i
    header i out low =
        in_key_bytes i out (omega arith) ∙ key_copied.rest i (inl low) (inl (omega arith))

    pub block_size_is : le64 h 16 ≡ block_size
    block_size_is =
        le64_same h (base m block_size flags) 16
          (λ i lo hi. header i (inl (omega arith)) (omega arith))
        ∙ last64_lem (put_text m 0 key_block_magic) (scalars block_size flags) 16 refl
        ∙ omega arith

    -- The first checks of KeyBlockVerify.
    pub made-IsKeyBlock : (size : ℕ) → block_size ≤ size → IsKeyBlock h 0 size
    unfolding memcmp_eq put32 put64
    made-IsKeyBlock size large = record {
      room = omega arith;
      magic =
          memcmp_eq_same h (base m block_size flags) 0 key_block_magic
            (λ i lo hi. header i (inl (omega arith)) (omega arith))
          ∙ refl;
      version =
          le32_same h (base m block_size flags) 8
            (λ i lo hi. header i (inl (omega arith)) (omega arith))
          ∙ last32_lem (put_text m 0 key_block_magic) (scalars block_size flags) 8 refl;
      fits = omega (arith, block_size_is);
    }

    key_inside : PublicKeyInside h 0 (signed_bytes data_key) 80
    key_inside = record {
      after = omega arith;
      struct_fits = omega arith;
      data_fits = omega (
        arith,
        in_key 80 (omega arith) (omega arith),
        in_key 88 (omega arith) (omega arith),
        key_copied.offset,
        key_copied.size,
      );
    }

    pub made-Covers : Covers h 0 24
    made-Covers = record {
      signature = record {
        after = omega arith;
        struct_fits = omega (arith, block_size_is);
        data_fits = omega (arith, block_size_is, s.offset, s.sig_size);
      };
      fits = omega (arith, block_size_is, s.data_size);
      header_signed = omega (arith, s.data_size);
      data_key = rw s.data_size key_inside;
    }

    sum_offset : le64 h 48 ≡ signed_bytes data_key - 48
    sum_offset = at_sum 48 (omega arith) (omega arith) ∙ sum_copied.offset

    pub sum_size : le64 h 56 ≡ 64
    sum_size = at_sum 56 (omega arith) (omega arith) ∙ sum_copied.sig_size ∙ cs.sig_size

    pub sum_data_size : le64 h 64 ≡ signed_bytes data_key
    sum_data_size = at_sum 64 (omega arith) (omega arith) ∙ sum_copied.data_size_is ∙ cs.data_size

    pub sum-Covers : Covers h 0 48
    sum-Covers = record {
      signature = record {
        after = omega arith;
        struct_fits = omega (arith, block_size_is);
        data_fits = omega (arith, block_size_is, sum_offset, sum_size);
      };
      fits = omega (arith, block_size_is, sum_data_size);
      header_signed = omega (arith, sum_data_size);
      data_key = rw sum_data_size key_inside;
    }

    -- The block still has the bytes whose checksum was made.
    pub made-Agree : Agree (signed_bytes data_key) (both_made m block_size flags data_key key) h
    made-Agree i l = sym (
        s.kept i (omega arith)
        ∙ ap (λ (c : Bytes). c i) (sym still_made)
        ∙ signature_copy_same (room_made m block_size flags data_key key) 48 (signed_bytes data_key)
            64 (signed_bytes data_key) t 0 i whole-IsBytes (omega arith) (omega arith) (omega arith)
            (omega arith) cs.sig_size cs.data_size l)

    pub sum_is :
        (i : ℕ)
        → i < 64
        → crypto.digest
            (both_made m block_size flags data_key key)
            0
            (signed_bytes data_key)
            sha512_digest_algorithm
            i
          ≡ h (Signature.sig_data h 48 + i)
    sum_is i l =
        let place : Signature.sig_data h 48 ≡ signed_bytes data_key = omega (arith, sum_offset) in
        sym (
          ap (λ (p : ℕ). h (p + i)) place
          ∙ s.rest (signed_bytes data_key + i) (omega arith) (inr (omega arith))
          ∙ sum_copied.data_is i (omega (arith, cs.sig_size))
          ∙ cs.sum i l)

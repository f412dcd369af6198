-- ===== src/Host/FirmwareMade.antt =====
-- What CreateFirmwarePreamble stores in a preamble, and what VerifyFirmwarePreamble reads of it.
use futility.Prelude.{ℕ, ◌+◌, ◌^◌, ◌≤◌, ◌<◌, ◌⊎◌, inl, inr}
use futility.Prelude.{◌≡◌, refl, ap, ◌∙◌, arith, some, u64, u32, List, [], ◌∷◌}
use futility.Prelude.Memory.{Bytes, IsBytes, le32, le64, le32_same, le64_same}
use futility.Prelude.Stores.{Store, store32, store64, stores, stores-IsBytes, last32, last64}
use futility.Prelude.Stores.{last32_lem, last64_lem}
use futility.Verify.Crypto.{Crypto, RsaKey, siglen}
use futility.Verify.PublicKey
use futility.Verify.Signature
use futility.Verify.Laws.{IsFirmwarePreamble}
use futility.Host.Structs.{PrivateKey, signature_init, signature_copy}
use futility.Host.Structs.{public_key_init, public_key_copy}
use futility.Host.Create.{Pointer, key_size_of, sig_size_of, zeroed}
use futility.Host.Copied.{Copied, signature_copy-Copied}
use futility.Host.CopiedKey.{CopiedKey, public_key_copy-CopiedKey}
use futility.Host.Signing.{zeroed-IsBytes}
use futility.Host.Signed.{Signed}

-- The scalar fields, in the order of their stores.
abbrev scalars : ℕ → ℕ → ℕ → List Store
scalars block_size version flags =
    store32 32 2 ∷ store32 36 1 ∷ store64 0 block_size ∷ store64 40 version ∷ store32 104 flags ∷ []

abbrev base : Bytes → ℕ → ℕ → ℕ → Bytes
base m block_size version flags = stores (zeroed m 0 block_size) (scalars block_size version flags)

abbrev pub with_key : Bytes → ℕ → ℕ → ℕ → Pointer → Bytes
with_key m block_size version flags subkey =
    public_key_copy (public_key_init (base m block_size version flags) 48 108 (key_size_of subkey))
      48 subkey.buf subkey.at

-- Where the body signature, and the signature, have their bytes.
abbrev pub body_at : Pointer → ℕ
body_at subkey = 108 + key_size_of subkey

abbrev pub signed_bytes : Pointer → Pointer → ℕ
signed_bytes subkey body = body_at subkey + sig_size_of body

abbrev pub with_body : Bytes → ℕ → ℕ → ℕ → Pointer → Pointer → Bytes
with_body m block_size version flags subkey body =
    signature_copy
      (signature_init (with_key m block_size version flags subkey) 80 (body_at subkey)
        (sig_size_of body) 0)
      80 body.buf body.at

-- The preamble `h` holds these numbers, in their width, and copies of the key and of the body
-- signature.
pub record HoldsFirmware (h : Bytes) (version flags : ℕ) (subkey body : Pointer) : Type 0 where
  pub firmware_version : le64 h 40 ≡ u64 version
  pub flags_is : le32 h 104 ≡ u32 flags
  pub key_size : PublicKey.key_size h 48 ≡ key_size_of subkey
  pub algorithm : PublicKey.algorithm h 48 ≡ PublicKey.algorithm subkey.buf subkey.at
  pub key_version : PublicKey.key_version h 48 ≡ PublicKey.key_version subkey.buf subkey.at
  pub key_data :
      (i : ℕ)
      → i < key_size_of subkey
      → h (PublicKey.key_data h 48 + i) ≡ subkey.buf (PublicKey.key_data subkey.buf subkey.at + i)
  pub sig_size : Signature.sig_size h 80 ≡ sig_size_of body
  pub data_size : Signature.data_size h 80 ≡ Signature.data_size body.buf body.at
  pub sig_data :
      (i : ℕ)
      → i < sig_size_of body
      → h (Signature.sig_data h 80 + i) ≡ body.buf (Signature.sig_data body.buf body.at + i)

module _ (key : PrivateKey) (rsa : RsaKey) (crypto : Crypto) (version flags : ℕ)
    (subkey body : Pointer) (subkey_bytes : IsBytes subkey.buf) (body_bytes : IsBytes body.buf)
    (fits : signed_bytes subkey body + 2048 < 2 ^ 64) (m : Bytes) (hm : IsBytes m) (block_size : ℕ)
    (fits_block : block_size < 2 ^ 64)
    (room : signed_bytes subkey body + siglen key.algorithm ≤ block_size) where
  key_copied :
      CopiedKey
        (base m block_size version flags)
        (with_key m block_size version flags subkey)
        48
        108
        subkey.buf
        subkey.at
  key_copied =
      public_key_copy-CopiedKey (base m block_size version flags) 48 108 subkey.buf subkey.at
        (stores-IsBytes (zeroed m 0 block_size) (scalars block_size version flags)
          (zeroed-IsBytes m 0 block_size hm))
        subkey_bytes (omega arith) (omega arith)

  pub body_copied :
      Copied
        (with_key m block_size version flags subkey)
        (with_body m block_size version flags subkey body)
        80
        (body_at subkey)
        (sig_size_of body)
        (Signature.data_size body.buf body.at)
        body.buf
        (Signature.sig_data body.buf body.at)
  body_copied =
      signature_copy-Copied (with_key m block_size version flags subkey) 80 (body_at subkey)
        (sig_size_of body) 0 body.buf body.at key_copied.bytes body_bytes (omega arith)
        (omega arith) (omega arith) (omega arith)

  module _ (h : Bytes)
      (s : Signed crypto key rsa
        (with_body m block_size version flags subkey body)
        8
        (signed_bytes subkey body)
        (signed_bytes subkey body)
        h) where
    in_body :
        (o : ℕ)
        → 32 ≤ o
        → o + 8 ≤ 108
        → le64 h o ≡ le64 (with_body m block_size version flags subkey body) o
    in_body o a b = le64_same h _ o (λ i lo hi. s.rest i (omega arith) (inr (omega arith)))

    in_key :
        (o : ℕ)
        → 32 ≤ o
        → o + 8 ≤ 80
        → le64 h o ≡ le64 (with_key m block_size version flags subkey) o
    in_key o a b = le64_same h _ o (λ i lo hi.
        s.rest i (omega arith) (inr (omega arith))
        ∙ body_copied.rest i (inl (omega arith)) (inl (omega arith)))

    header :
        (i : ℕ)
        → (i < 8) ⊎ (32 ≤ i)
        → (i < 48) ⊎ (104 ≤ i)
        → i < 108
        → h i ≡ base m block_size version flags i
    header i out_sig out low =
        s.rest i (omega arith) out_sig
        ∙ body_copied.rest i (ground arith) (inl (omega arith))
        ∙ key_copied.rest i (ground arith) (inl low)

    field64 :
        (o : ℕ)
        → (o + 8 ≤ 8) ⊎ (32 ≤ o)
        → o + 8 ≤ 48
        → le64 h o ≡ le64 (base m block_size version flags) o
    field64 o a c =
        le64_same h _ o (λ i lo hi. header i (ground arith) (inl (omega arith)) (omega arith))

    field32 :
        (o : ℕ)
        → 32 ≤ o
        → (o + 4 ≤ 48) ⊎ (104 ≤ o)
        → o + 4 ≤ 108
        → le32 h o ≡ le32 (base m block_size version flags) o
    field32 o a b c =
        le32_same h _ o (λ i lo hi. header i (inr (omega arith)) (ground arith) (omega arith))

    base64 :
        (o : ℕ) {v : ℕ}
        → last64 (scalars block_size version flags) o ≡ some v
        → le64 (base m block_size version flags) o ≡ u64 v
    base64 o e = last64_lem (zeroed m 0 block_size) (scalars block_size version flags) o e

    base32 :
        (o : ℕ) {v : ℕ}
        → last32 (scalars block_size version flags) o ≡ some v
        → le32 (base m block_size version flags) o ≡ u32 v
    base32 o e = last32_lem (zeroed m 0 block_size) (scalars block_size version flags) o e

    pub made-HoldsFirmware : HoldsFirmware h version flags subkey body
    made-HoldsFirmware =
        let key_place : PublicKey.key_data h 48 ≡ 108 =
          omega (arith, in_key 48 (omega arith) (omega arith), key_copied.offset) in
        let place : Signature.sig_data h 80 ≡ body_at subkey =
          omega (arith, in_body 80 (omega arith) (omega arith), body_copied.offset) in
        record {
          firmware_version = field64 40 (inr (omega arith)) (omega arith) ∙ base64 40 refl;
          flags_is = field32 104 (omega arith) (inr (omega arith)) (omega arith) ∙ base32 104 refl;
          key_size = in_key 56 (omega arith) (omega arith) ∙ key_copied.size;
          algorithm = in_key 64 (omega arith) (omega arith) ∙ key_copied.algorithm;
          key_version = in_key 72 (omega arith) (omega arith) ∙ key_copied.version;
          key_data = λ i l.
              ap (λ (p : ℕ). h (p + i)) key_place
              ∙ s.rest (108 + i) (omega arith) (inr (omega arith))
              ∙ body_copied.rest (108 + i) (inr (omega arith)) (inl (omega arith))
              ∙ key_copied.data_is i l;
          sig_size = in_body 88 (omega arith) (omega arith) ∙ body_copied.sig_size;
          data_size = in_body 96 (omega arith) (omega arith) ∙ body_copied.data_size_is;
          sig_data = λ i l.
              ap (λ (p : ℕ). h (p + i)) place
              ∙ s.rest (body_at subkey + i) (omega arith) (inr (omega arith))
              ∙ body_copied.data_is i l;
        }

    pub made-block_size : le64 h 0 ≡ block_size
    made-block_size = field64 0 (inl (omega arith)) (omega arith) ∙ base64 0 refl ∙ omega arith

    pub made-IsFirmwarePreamble :
        (size : ℕ) → block_size ≤ size → IsFirmwarePreamble crypto h 0 size rsa
    made-IsFirmwarePreamble size large = record {
      version = field32 32 (omega arith) (inl (omega arith)) (omega arith) ∙ base32 32 refl;
      fits = omega (arith, made-block_size);
      signature = record {
        after = omega arith;
        struct_fits = omega (arith, made-block_size);
        data_fits = omega (arith, made-block_size, s.offset, s.sig_size);
      };
      signed_fits = omega (arith, made-block_size, s.data_size);
      signed = s.signed size (omega arith);
      header_signed = omega (arith, s.data_size);
      body_signature = record {
        after = omega arith;
        struct_fits = omega (arith, s.data_size);
        data_fits = omega (
          arith,
          s.data_size,
          in_body 80 (omega arith) (omega arith),
          body_copied.offset,
          made-HoldsFirmware.sig_size,
        );
      };
      kernel_subkey = record {
        after = omega arith;
        struct_fits = omega (arith, s.data_size);
        data_fits = omega (
          arith,
          s.data_size,
          in_key 48 (omega arith) (omega arith),
          key_copied.offset,
          made-HoldsFirmware.key_size,
        );
      };
    }

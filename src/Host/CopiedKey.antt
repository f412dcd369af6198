-- ===== src/Host/CopiedKey.antt =====
-- What PublicKeyInit and PublicKeyCopy, one after the other, leave in a structure.
use futility.Prelude.{ℕ, ◌+◌, ◌-◌, ◌^◌, ◌≤◌, ◌<◌, ltb, ◌≡◌, ◌⊎◌, inl, arith, false, u64, sub64}
use futility.Prelude.{refl, ◌∙◌}
use futility.Prelude.Memory.{Bytes, IsBytes, le64, le64_same, le64-lt}
use futility.Prelude.Copy.{put64, copy, put64_ne, copy_ne, copy_same, le64-put64, put64-IsBytes}
use futility.Prelude.Copy.{copy-IsBytes}
use futility.Prelude.Stores.{le64-put64_ne}
use futility.Verify.Crypto.{num_algorithms}
use futility.Verify.PublicKey
use futility.Host.Structs.{public_key_init, public_key_copy}

-- The key of `size` bytes at `d`, with its bytes at `o`, as a copy of the key at `p` of `src`. Nothing
-- else changes from `b` to `c`.
pub record CopiedKey (b c : Bytes) (d o : ℕ) (src : Bytes) (p : ℕ) : Type 0 where
  pub offset : le64 c d ≡ o - d
  pub size : PublicKey.key_size c d ≡ PublicKey.key_size src p
  pub algorithm : PublicKey.algorithm c d ≡ PublicKey.algorithm src p
  pub version : PublicKey.key_version c d ≡ PublicKey.key_version src p
  pub rest :
      (i : ℕ) → (i < d) ⊎ (d + 32 ≤ i) → (i < o) ⊎ (o + PublicKey.key_size src p ≤ i) → c i ≡ b i
  pub data_is :
      (i : ℕ) → i < PublicKey.key_size src p → c (o + i) ≡ src (PublicKey.key_data src p + i)
  pub bytes : IsBytes c

module _ (b : Bytes) (d : ℕ) where
  -- The last three fields, over a structure.
  copied_fields : Bytes → ℕ → ℕ → ℕ → Bytes
  copied_fields f size algorithm version =
      put64 (put64 (put64 f (d + 8) size) (d + 16) algorithm) (d + 24) version

  copied_fields-offset :
      (f : Bytes) (size algorithm version : ℕ)
      → le64 (copied_fields f size algorithm version) d ≡ le64 f d
  unfolding copied_fields
  copied_fields-offset f size algorithm version =
      le64-put64_ne (put64 (put64 f (d + 8) size) (d + 16) algorithm) (d + 24) version d
        (inl (omega arith))
      ∙ le64-put64_ne (put64 f (d + 8) size) (d + 16) algorithm d (inl (omega arith))
      ∙ le64-put64_ne f (d + 8) size d (inl (omega arith))

  copied_fields-size :
      (f : Bytes) (size algorithm version : ℕ)
      → size < 2 ^ 64
      → le64 (copied_fields f size algorithm version) (d + 8) ≡ size
  unfolding copied_fields
  copied_fields-size f size algorithm version h =
      le64-put64_ne (put64 (put64 f (d + 8) size) (d + 16) algorithm) (d + 24) version (d + 8)
        (inl (omega arith))
      ∙ le64-put64_ne (put64 f (d + 8) size) (d + 16) algorithm (d + 8) (inl (omega arith))
      ∙ le64-put64 f (d + 8) size h

  copied_fields-algorithm :
      (f : Bytes) (size algorithm version : ℕ)
      → algorithm < 2 ^ 64
      → le64 (copied_fields f size algorithm version) (d + 16) ≡ algorithm
  unfolding copied_fields
  copied_fields-algorithm f size algorithm version h =
      le64-put64_ne (put64 (put64 f (d + 8) size) (d + 16) algorithm) (d + 24) version (d + 16)
        (inl (omega arith))
      ∙ le64-put64 (put64 f (d + 8) size) (d + 16) algorithm h

  copied_fields_ne :
      (f : Bytes) (size algorithm version i : ℕ)
      → (i < d) ⊎ (d + 32 ≤ i)
      → copied_fields f size algorithm version i ≡ f i
  unfolding copied_fields
  copied_fields_ne f size algorithm version i h =
      put64_ne (put64 (put64 f (d + 8) size) (d + 16) algorithm) (d + 24) version i (ground arith)
      ∙ put64_ne (put64 f (d + 8) size) (d + 16) algorithm i (ground arith)
      ∙ put64_ne f (d + 8) size i (ground arith)

  copied_fields-IsBytes :
      (f : Bytes) (size algorithm version : ℕ)
      → IsBytes f
      → IsBytes (copied_fields f size algorithm version)
  unfolding copied_fields
  copied_fields-IsBytes f size algorithm version h =
      put64-IsBytes _ (d + 24) version
        (put64-IsBytes _ (d + 16) algorithm (put64-IsBytes f (d + 8) size h))

  -- PublicKeyInit is such a store over the offset.
  whole : (o : ℕ) (s : Bytes) (p : ℕ) → Bytes
  whole o s p =
      copied_fields (copied_fields (put64 b d (o - d)) (PublicKey.key_size s p) num_algorithms 0)
        (PublicKey.key_size s p) (PublicKey.algorithm s p) (PublicKey.key_version s p)

  whole-offset : (o : ℕ) (s : Bytes) (p : ℕ) → o < 2 ^ 64 → le64 (whole o s p) d ≡ o - d
  unfolding whole
  whole-offset o s p h =
      copied_fields-offset
        (copied_fields (put64 b d (o - d)) (PublicKey.key_size s p) num_algorithms 0) _ _ _
      ∙ copied_fields-offset (put64 b d (o - d)) (PublicKey.key_size s p) num_algorithms 0
      ∙ le64-put64 b d (o - d) (omega arith)

  one_key_copy :
      (o : ℕ) (s : Bytes) (p : ℕ)
      → IsBytes s
      → d ≤ o
      → o < 2 ^ 64
      → public_key_copy (public_key_init b d o (PublicKey.key_size s p)) d s p
        ≡ copy (whole o s p) o s (PublicKey.key_data s p) (PublicKey.key_size s p)
  unfolding public_key_init public_key_copy whole copied_fields
  one_key_copy o s p hs after fits =
      let m = PublicKey.key_size s p in
      let off : sub64 o d ≡ o - d = omega arith in
      let place : u64 (d + le64 (whole o s p) d) ≡ o = omega (arith, whole-offset o s p fits) in
      let size : le64 (copied_fields (put64 b d (o - d)) m num_algorithms 0) (d + 8) ≡ m =
        copied_fields-size (put64 b d (o - d)) m num_algorithms 0 (le64-lt s (p + 8) hs) in
      let not_small : ltb m m ≡ false = ground arith in rw (off, size, not_small, place) refl

  pub public_key_copy-CopiedKey :
      (o : ℕ) (s : Bytes) (p : ℕ)
      → IsBytes b
      → IsBytes s
      → d + 32 ≤ o
      → o < 2 ^ 64
      → CopiedKey b (public_key_copy (public_key_init b d o (PublicKey.key_size s p)) d s p) d o s p
  unfolding whole put64 copied_fields
  public_key_copy-CopiedKey o s p hb hs after fits =
      let q = PublicKey.key_data s p in
      let m = PublicKey.key_size s p in
      let inner = copied_fields (put64 b d (o - d)) m num_algorithms 0 in
      let c = copy (whole o s p) o s q m in
      let before : (e : ℕ) → e + 8 ≤ o → le64 c e ≡ le64 (whole o s p) e = λ e h.
        le64_same c (whole o s p) e
          (λ i lo hi. copy_ne (whole o s p) s o q m i (inl (omega arith))) in
      let inner-IsBytes =
        copied_fields-IsBytes (put64 b d (o - d)) m num_algorithms 0
          (put64-IsBytes b d (o - d) hb) in
      rw (one_key_copy o s p hs (omega arith) fits) (record {
        offset = before d (omega arith) ∙ whole-offset o s p fits;
        size = before (d + 8) (omega arith) ∙ copied_fields-size inner m _ _ (le64-lt s (p + 8) hs);
        algorithm =
            before (d + 16) (omega arith)
            ∙ copied_fields-algorithm inner m _ _ (le64-lt s (p + 16) hs);
        version = before (d + 24) (omega arith) ∙ le64-put64 _ (d + 24) _ (le64-lt s (p + 24) hs);
        rest = λ i out away.
            copy_ne (whole o s p) s o q m i away
            ∙ copied_fields_ne inner m _ _ i out
            ∙ copied_fields_ne (put64 b d (o - d)) m num_algorithms 0 i out
            ∙ put64_ne b d (o - d) i (ground arith);
        data_is = λ i h. copy_same (whole o s p) s o q m i h;
        bytes =
            copy-IsBytes (whole o s p) s o q m (copied_fields-IsBytes inner m _ _ inner-IsBytes) hs;
      })

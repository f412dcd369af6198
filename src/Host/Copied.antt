-- ===== src/Host/Copied.antt =====
-- What SignatureInit and SignatureCopy, one after the other, leave in a structure.
use futility.Prelude.{ℕ, ◌+◌, ◌-◌, ◌^◌, ◌≤◌, ◌<◌, ltb, ◌≡◌, ◌⊎◌, inl, inr, arith, false, u64, sub64}
use futility.Prelude.{refl, ◌∙◌, sym, ap}
use futility.Prelude.Memory.{Bytes, IsBytes, le64, le64_same, le64-lt}
use futility.Prelude.Copy.{put64, copy, put64_ne, copy_ne, copy_same, le64-put64, put64-IsBytes}
use futility.Prelude.Copy.{copy-IsBytes}
use futility.Prelude.Stores.{le64-put64_ne, put64_self}
use futility.Verify.Signature
use futility.Host.Structs.{signature_init, signature_copy}

-- The signature of `size` bytes at `d`, with its bytes at `o`, as a copy of `src` from `p` on. Nothing
-- else changes from `b` to `c`.
pub record Copied (b c : Bytes) (d o size data_size : ℕ) (src : Bytes) (p : ℕ) : Type 0 where
  pub offset : le64 c d ≡ o - d
  pub sig_size : le64 c (d + 8) ≡ size
  pub data_size_is : le64 c (d + 16) ≡ data_size
  pub rest : (i : ℕ) → (i < d) ⊎ (d + 24 ≤ i) → (i < o) ⊎ (o + size ≤ i) → c i ≡ b i
  pub data_is : (i : ℕ) → i < size → c (o + i) ≡ src (p + i)
  pub bytes : IsBytes c

module _ (b : Bytes) (d : ℕ) where
  -- The three fields of a signature.
  fields : ℕ → ℕ → ℕ → Bytes
  fields offset size data_size = put64 (put64 (put64 b d offset) (d + 8) size) (d + 16) data_size

  fields-size :
      (offset size data_size : ℕ)
      → size < 2 ^ 64
      → le64 (fields offset size data_size) (d + 8) ≡ size
  unfolding fields
  fields-size offset size data_size h =
      le64-put64_ne (put64 (put64 b d offset) (d + 8) size) (d + 16) data_size (d + 8)
        (inl (omega arith))
      ∙ le64-put64 (put64 b d offset) (d + 8) size h

  fields_ne :
      (offset size data_size i : ℕ) → (i < d) ⊎ (d + 24 ≤ i) → fields offset size data_size i ≡ b i
  unfolding fields
  fields_ne offset size data_size i h =
      put64_ne (put64 (put64 b d offset) (d + 8) size) (d + 16) data_size i (ground arith)
      ∙ put64_ne (put64 b d offset) (d + 8) size i (ground arith)
      ∙ put64_ne b d offset i (ground arith)

  fields-IsBytes : (offset size data_size : ℕ) → IsBytes b → IsBytes (fields offset size data_size)
  unfolding fields
  fields-IsBytes offset size data_size h =
      put64-IsBytes _ (d + 16) data_size (put64-IsBytes _ (d + 8) size (put64-IsBytes b d offset h))

  -- SignatureCopy into those fields.
  sized : (offset size data_size size' data_size' : ℕ) → Bytes
  sized offset size data_size size' data_size' =
      put64 (put64 (fields offset size data_size) (d + 8) size') (d + 16) data_size'

  sized-offset :
      (offset size data_size size' data_size' : ℕ)
      → offset < 2 ^ 64
      → le64 (sized offset size data_size size' data_size') d ≡ offset
  unfolding sized fields
  sized-offset offset size data_size size' data_size' h =
      le64-put64_ne (put64 (fields offset size data_size) (d + 8) size') (d + 16) data_size' d
        (inl (omega arith))
      ∙ le64-put64_ne (fields offset size data_size) (d + 8) size' d (inl (omega arith))
      ∙ le64-put64_ne (put64 (put64 b d offset) (d + 8) size) (d + 16) data_size d
          (inl (omega arith))
      ∙ le64-put64_ne (put64 b d offset) (d + 8) size d (inl (omega arith))
      ∙ le64-put64 b d offset h

  sized-size :
      (offset size data_size size' data_size' : ℕ)
      → size' < 2 ^ 64
      → le64 (sized offset size data_size size' data_size') (d + 8) ≡ size'
  unfolding sized
  sized-size offset size data_size size' data_size' h =
      le64-put64_ne (put64 (fields offset size data_size) (d + 8) size') (d + 16) data_size' (d + 8)
        (inl (omega arith))
      ∙ le64-put64 (fields offset size data_size) (d + 8) size' h

  sized_ne :
      (offset size data_size size' data_size' i : ℕ)
      → (i < d) ⊎ (d + 24 ≤ i)
      → sized offset size data_size size' data_size' i ≡ b i
  unfolding sized
  sized_ne offset size data_size size' data_size' i h =
      put64_ne (put64 (fields offset size data_size) (d + 8) size') (d + 16) data_size' i
        (ground arith)
      ∙ put64_ne (fields offset size data_size) (d + 8) size' i (ground arith)
      ∙ fields_ne offset size data_size i h

  copied :
      (o room data_size size' data_size' q : ℕ) (s : Bytes)
      → IsBytes b
      → IsBytes s
      → d + 24 ≤ o
      → o < 2 ^ 64
      → size' < 2 ^ 64
      → data_size' < 2 ^ 64
      → Copied b
          (copy (sized (o - d) room data_size size' data_size') o s q size')
          d
          o
          size'
          data_size'
          s
          q
  unfolding sized
  copied o room x m x' q s hb hs after fits fits8 fits16 =
      let whole = sized (o - d) room x m x' in
      let before : (e : ℕ) → e + 8 ≤ o → le64 (copy whole o s q m) e ≡ le64 whole e =
        λ e h. le64_same _ whole e (λ i lo hi. copy_ne whole s o q m i (inl (omega arith))) in
      record {
        offset = before d (omega arith) ∙ sized-offset (o - d) room x m x' (omega arith);
        sig_size = before (d + 8) (omega arith) ∙ sized-size (o - d) room x m x' fits8;
        data_size_is = before (d + 16) (omega arith) ∙ le64-put64 _ (d + 16) x' fits16;
        rest = λ i out away. copy_ne whole s o q m i away ∙ sized_ne (o - d) room x m x' i out;
        data_is = λ i h. copy_same whole s o q m i h;
        bytes =
            copy-IsBytes whole s o q m
              (put64-IsBytes _ (d + 16) x'
                (put64-IsBytes _ (d + 8) m (fields-IsBytes (o - d) room x hb)))
              hs;
      }

  -- The two functions, as one copy.
  one_copy :
      (o room data_size : ℕ) (s : Bytes) (p : ℕ)
      → d ≤ o
      → o < 2 ^ 64
      → room < 2 ^ 64
      → Signature.sig_size s p ≤ room
      → signature_copy (signature_init b d o room data_size) d s p
        ≡ copy
            (sized (o - d) room data_size (Signature.sig_size s p) (Signature.data_size s p))
            o
            s
            (Signature.sig_data s p)
            (Signature.sig_size s p)
  unfolding signature_copy signature_init fields sized
  one_copy o room x s p after fits fits8 small =
      let m = Signature.sig_size s p in
      let whole = sized (o - d) room x m (Signature.data_size s p) in
      let off : sub64 o d ≡ o - d = omega arith in
      let place : u64 (d + le64 whole d) ≡ o =
        omega (arith, sized-offset (o - d) room x m (Signature.data_size s p)) in
      let size : le64 (fields (o - d) room x) (d + 8) ≡ room = fields-size (o - d) room x fits8 in
      let not_small : ltb room m ≡ false = ground arith in rw (off, size, not_small, place) refl

  -- SignatureInit for the bytes at `o`, and then SignatureCopy of a signature that fits.
  pub signature_copy-Copied :
      (o room data_size : ℕ) (s : Bytes) (p : ℕ)
      → IsBytes b
      → IsBytes s
      → d + 24 ≤ o
      → o < 2 ^ 64
      → room < 2 ^ 64
      → Signature.sig_size s p ≤ room
      → Copied b
          (signature_copy (signature_init b d o room data_size) d s p)
          d
          o
          (Signature.sig_size s p)
          (Signature.data_size s p)
          s
          (Signature.sig_data s p)
  signature_copy-Copied o room x s p hb hs after fits fits8 small =
      rw (one_copy o room x s p (omega arith) fits fits8 small) (
        copied o room x (Signature.sig_size s p) (Signature.data_size s p) (Signature.sig_data s p)
          s hb hs after fits (le64-lt s (p + 8) hs) (le64-lt s (p + 16) hs))

  -- Where the two say the same, SignatureCopy changes nothing in front of the bytes of the signature.
  pub signature_copy_same :
      (o m x : ℕ) (s : Bytes) (p i : ℕ)
      → IsBytes b
      → d ≤ o
      → o < 2 ^ 64
      → m < 2 ^ 64
      → x < 2 ^ 64
      → Signature.sig_size s p ≡ m
      → Signature.data_size s p ≡ x
      → i < o
      → signature_copy (signature_init b d o m x) d s p i ≡ signature_init b d o m x i
  unfolding signature_init fields sized
  signature_copy_same o m x s p i hb after fits fits8 fits16 size data_size before =
      let off : sub64 o d ≡ o - d = omega arith in
      let f = fields (o - d) m x in
      let whole = sized (o - d) m x (Signature.sig_size s p) (Signature.data_size s p) in
      let f-IsBytes = fields-IsBytes (o - d) m x hb in
      let g = put64 f (d + 8) (Signature.sig_size s p) in
      let g-data_size : le64 g (d + 16) ≡ x =
        le64-put64_ne f (d + 8) (Signature.sig_size s p) (d + 16) (inr (omega arith))
        ∙ le64-put64 _ (d + 16) x fits16 in
      ap (λ (c : Bytes). c i) (one_copy o m x s p after fits fits8 (omega arith))
      ∙ copy_ne whole s o (Signature.sig_data s p) (Signature.sig_size s p) i (inl before)
      ∙ put64_self g (d + 16) (Signature.data_size s p) i (put64-IsBytes f (d + 8) _ f-IsBytes)
          (data_size ∙ sym g-data_size)
      ∙ put64_self f (d + 8) (Signature.sig_size s p) i f-IsBytes
          (size ∙ sym (fields-size (o - d) m x fits8))
      ∙ rw off refl

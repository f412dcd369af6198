-- ===== src/Host/Inits.antt =====
-- SignatureInit made twice, and of two structures.
use futility.Prelude.{ℕ, ◌+◌, ◌-◌, ◌^◌, ◌≤◌, ◌<◌, ◌≡◌, ◌⊎◌, inl, inr, arith, sub64}
use futility.Prelude.{refl, ◌∙◌, sym, ap}
use mathlib.Core.Path.{fun_ext}
use futility.Prelude.Memory.{put32, Bytes, IsBytes, le64}
use futility.Prelude.Copy.{put64, put64_ne, le64-put64, put64-IsBytes}
use futility.Prelude.Stores.{le64-put64_ne, put64_self}
use futility.Host.Structs.{signature_init}

-- SignatureInit of what a signature holds already changes nothing.
pub signature_init_same :
    (b : Bytes) (d o size data_size i : ℕ)
    → IsBytes b
    → d ≤ o
    → o < 2 ^ 64
    → le64 b d ≡ o - d
    → le64 b (d + 8) ≡ size
    → le64 b (d + 16) ≡ data_size
    → signature_init b d o size data_size i ≡ b i
unfolding signature_init
signature_init_same b d o size data_size i hb after fits e0 e8 e16 =
    let f0 = put64 b d (sub64 o d) in
    let f8 = put64 f0 (d + 8) size in
    let h0 = put64-IsBytes b d (sub64 o d) hb in
    let at8 : size ≡ le64 f0 (d + 8) =
      sym (le64-put64_ne b d (sub64 o d) (d + 8) (inr (omega arith)) ∙ e8) in
    let at16 : data_size ≡ le64 f8 (d + 16) = sym (
      le64-put64_ne f0 (d + 8) size (d + 16) (inr (omega arith))
      ∙ le64-put64_ne b d (sub64 o d) (d + 16) (inr (omega arith))
      ∙ e16) in
    put64_self f8 (d + 16) data_size i (put64-IsBytes f0 (d + 8) size h0) at16
    ∙ put64_self f0 (d + 8) size i h0 at8
    ∙ put64_self b d (sub64 o d) i hb (omega (arith, e0))

signature_init_lem :
    (b : Bytes) (d o size data_size : ℕ)
    → signature_init b d o size data_size
      ≡ put64 (put64 (put64 b d (sub64 o d)) (d + 8) size) (d + 16) data_size
unfolding signature_init
signature_init_lem b d o size data_size = refl

put64-swap :
    (b : Bytes) (o v p w : ℕ) → p + 8 ≤ o → put64 (put64 b o v) p w ≡ put64 (put64 b p w) o v
unfolding put64 put32
put64-swap b o v p w apart = fun_ext (λ i. ground arith)

put64-signature_init :
    (b : Bytes) (d o size data_size p w : ℕ)
    → p + 8 ≤ d
    → put64 (signature_init b d o size data_size) p w
      ≡ signature_init (put64 b p w) d o size data_size
unfolding signature_init
put64-signature_init b d o size data_size p w apart =
    let f0 = put64 b d (sub64 o d) in
    put64-swap (put64 f0 (d + 8) size) (d + 16) data_size p w (omega arith)
    ∙ ap (λ (c : Bytes). put64 c (d + 16) data_size)
        (put64-swap f0 (d + 8) size p w (omega arith)
          ∙ ap (λ (c : Bytes). put64 c (d + 8) size) (put64-swap b d (sub64 o d) p w apart))

-- Two structures are made in either order.
pub signature_init-swap :
    (b : Bytes) (d e o p size size' data_size data_size' : ℕ)
    → e + 24 ≤ d
    → signature_init (signature_init b d o size data_size) e p size' data_size'
      ≡ signature_init (signature_init b e p size' data_size') d o size data_size
signature_init-swap b d e o p size size' data_size data_size' apart =
    let f0 = put64 b e (sub64 p e) in
    signature_init_lem (signature_init b d o size data_size) e p size' data_size'
    ∙ ap (λ (c : Bytes). put64 (put64 c (e + 8) size') (e + 16) data_size')
        (put64-signature_init b d o size data_size e (sub64 p e) (omega arith))
    ∙ ap (λ (c : Bytes). put64 c (e + 16) data_size')
        (put64-signature_init f0 d o size data_size (e + 8) size' (omega arith))
    ∙ put64-signature_init (put64 f0 (e + 8) size') d o size data_size (e + 16) data_size'
        (omega arith)
    ∙ ap (λ (c : Bytes). signature_init c d o size data_size)
        (sym (signature_init_lem b e p size' data_size'))

-- What SignatureInit leaves.
module _ (b : Bytes) (d o size data_size : ℕ) where
  pub signature_init-offset :
      d ≤ o → o < 2 ^ 64 → le64 (signature_init b d o size data_size) d ≡ o - d
  unfolding signature_init
  signature_init-offset after fits =
      le64-put64_ne (put64 (put64 b d (sub64 o d)) (d + 8) size) (d + 16) data_size d
        (inl (omega arith))
      ∙ le64-put64_ne (put64 b d (sub64 o d)) (d + 8) size d (inl (omega arith))
      ∙ le64-put64 b d (sub64 o d) (omega arith)
      ∙ omega arith

  pub signature_init-sig_size :
      size < 2 ^ 64 → le64 (signature_init b d o size data_size) (d + 8) ≡ size
  unfolding signature_init
  signature_init-sig_size fits =
      le64-put64_ne (put64 (put64 b d (sub64 o d)) (d + 8) size) (d + 16) data_size (d + 8)
        (inl (omega arith))
      ∙ le64-put64 (put64 b d (sub64 o d)) (d + 8) size fits

  pub signature_init-data_size :
      data_size < 2 ^ 64 → le64 (signature_init b d o size data_size) (d + 16) ≡ data_size
  unfolding signature_init
  signature_init-data_size fits =
      le64-put64 (put64 (put64 b d (sub64 o d)) (d + 8) size) (d + 16) data_size fits

  pub signature_init_ne :
      (i : ℕ) → (i < d) ⊎ (d + 24 ≤ i) → signature_init b d o size data_size i ≡ b i
  unfolding signature_init
  signature_init_ne i h =
      put64_ne (put64 (put64 b d (sub64 o d)) (d + 8) size) (d + 16) data_size i (ground arith)
      ∙ put64_ne (put64 b d (sub64 o d)) (d + 8) size i (ground arith)
      ∙ put64_ne b d (sub64 o d) i (ground arith)

  pub signature_init-IsBytes : IsBytes b → IsBytes (signature_init b d o size data_size)
  unfolding signature_init
  signature_init-IsBytes h =
      put64-IsBytes _ (d + 16) data_size
        (put64-IsBytes _ (d + 8) size (put64-IsBytes b d (sub64 o d) h))

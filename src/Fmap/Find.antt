-- ===== src/Fmap/Find.antt =====
-- What fmap_find finds, from what its loops find.
use futility.Prelude.{ℕ, zero, suc, ◌+◌, ◌-◌, ◌*◌, ◌/◌, ◌%◌, ◌^◌, ◌<◌, ◌≤◌, ltb, Bool, true, false}
use futility.Prelude.{
  Option, none, some, ◌≡◌, ◌≢◌, refl, arith, inl, inr, ap, lt→ltb, ge→ltb, Bool-cases,
}
use native.Mathlib.Nat.{pow-suc, mul-le-mul_right, mod-eq_of_lt}
use native.Mathlib.Decide.{dec_lt}
use futility.Fmap.Search.{grow, scan, descend}
use futility.Fmap.Scan.{Scanned, missed, hit, scan-Scanned, grow-lt, grow-pow}
use futility.Prelude.Memory.{Bytes}
use futility.Fmap.Defs.{is_fmap, header_size, fmap_find}
use futility.Fmap.Align.{lt-pow, half-pow, odd_multiple, mod_double, odd-multiple-mod}

module _ (test : ℕ → Bool) (lim : ℕ) where
  -- `o` passes the test, at a positive offset that fits and is aligned to 4 but not to `bound`.
  pub record Candidate (bound o : ℕ) : Type 0 where
    pub fits : o ≤ lim
    pub aligned : o % 4 ≡ 0
    pub odd : o % bound ≢ 0
    pub passes : test o ≡ true

  -- Nothing passes, or `r` does, at a multiple of a power of two. No candidate is a multiple of
  -- twice that power, and among those that are multiples of it `r` is the first.
  pub data Best (bound : ℕ) : Option ℕ → Type 0 where
    nothing : ((o : ℕ) → ¬ Candidate bound o) → Best bound none
    best :
        (k : ℕ) {r : ℕ}
        → r % 2 ^ k ≡ 0
        → r % 4 ≡ 0
        → r ≤ lim
        → test r ≡ true
        → ((o : ℕ) → Candidate bound o → (o % (2 ^ k * 2) ≢ 0) × (o % 2 ^ k ≡ 0 → r ≤ o))
        → Best bound (some r)

  missed_all :
      {a : ℕ} (o : ℕ)
      → ((j : ℕ) → a + j * (a * 2) ≤ lim → test (a + j * (a * 2)) ≡ false)
      → o % (a * 2) ≡ a
      → o ≤ lim
      → test o ≡ false
  missed_all {a} o no_hit e le =
      let at : o ≡ a + o / (a * 2) * (a * 2) = odd_multiple o a e in
      ground (arith, at, no_hit (o / (a * 2)))

  -- A scan that missed leaves the candidates of half its alignment.
  narrower :
      {a : ℕ} (o : ℕ)
      → 0 < a
      → ((j : ℕ) → a + j * (a * 2) ≤ lim → test (a + j * (a * 2)) ≡ false)
      → Candidate (a * 2) o
      → Candidate a o
  narrower {a} o p no_hit cand = record {
    fits = cand.fits;
    aligned = cand.aligned;
    odd = clash;
    passes = cand.passes;
  }
    where
      clash : o % a ≡ 0 → ⊥
      clash e = cc (missed_all o no_hit (mod_double o a p e cand.odd) cand.fits, cand.passes)

  Best-hit :
      (j a k : ℕ) {r : ℕ}
      → a ≡ 2 ^ j
      → 0 < a
      → a % 4 ≡ 0
      → r ≡ a + k * (a * 2)
      → r ≤ lim
      → test r ≡ true
      → ((i : ℕ) → i < k → test (a + i * (a * 2)) ≡ false)
      → Best (a * 2) (some r)
  Best-hit j a k {r} power p q e le found before =
      best j (rw (← power, e) (odd-multiple-mod a k)) (rw e multiple) le found (λ o cand. (
        rw (← power) cand.odd,
        λ same. first o cand.passes (mod_double o a p (rw power same) cand.odd),
      ))
    where
      multiple : (a + k * (a * 2)) % 4 ≡ 0
      multiple =
          let quarter : a ≡ 4 * (a / 4) = omega arith in
          omega (arith, ap (λ (t : ℕ). k * t) quarter)

      first : (o : ℕ) → test o ≡ true → o % (a * 2) ≡ a → r ≤ o
      first o passes same = elim (dec_lt (o / (a * 2)) k) [
        | yes lt ↦ absurd (ground (arith, odd_multiple o a same, before (o / (a * 2)) lt))
        | no ge ↦ omega (
          arith,
          odd_multiple o a same,
          mul-le-mul_right {m = k} {n = o / (a * 2)} (a * 2) (omega arith),
        )
      ]

  Best-narrower :
      {a : ℕ} {r : Option ℕ}
      → 0 < a
      → ((j : ℕ) → a + j * (a * 2) ≤ lim → test (a + j * (a * 2)) ≡ false)
      → Best a r
      → Best (a * 2) r
  Best-narrower p no_hit (nothing none_left) = nothing (λ o c. none_left o (narrower o p no_hit c))
  Best-narrower p no_hit (best k m q le found first) =
      best k m q le found (λ o cand. first o (narrower o p no_hit cand))

  -- The descent from the alignment `2 ^ k`, with enough rounds.
  pub descend-Best : (k f : ℕ) → k < f → Best (2 ^ k * 2) (descend test lim f (2 ^ k))
  unfolding descend
  descend-Best k zero h = absurd (omega arith)
  descend-Best zero (suc f) h = nothing (λ o cand. cand.odd (omega (arith, cand.aligned)))
  descend-Best (suc zero) (suc f) h = nothing (λ o cand. cand.odd (omega (arith, cand.aligned)))
  descend-Best (suc (suc k)) (suc f) h =
      scanned (scan test lim (suc lim) a a) refl
        (scan-Scanned test lim (suc lim) a a pos (omega arith))
        (descend-Best (suc k) f (omega arith))
    where
      a : ℕ
      a = 2 ^ suc (suc k)

      pos : 0 < a
      pos = omega (arith, lt-pow (suc (suc k)))

      doubled : 2 ^ suc k * 2 ≡ a
      doubled = omega (arith, pow-suc 2 (suc k))

      wide : ltb a 4 ≡ false
      wide = ground (arith, pow-suc 2 (suc k), pow-suc 2 k, lt-pow k)

      scanned :
          (r : Option ℕ)
          → scan test lim (suc lim) a a ≡ r
          → Scanned test lim a a r
          → Best (2 ^ suc k * 2) (descend test lim f (2 ^ suc k))
          → Best (a * 2) (descend test lim (suc f) a)
      scanned (some r) e (hit n at le found before) rest =
          rw (wide, e, descend)
            (Best-hit (suc (suc k)) a n refl pos (omega (arith, pow-suc 2 (suc k), pow-suc 2 k)) at
              le found before)
      scanned none e (missed no_hit) rest =
          rw (wide, e, descend)
            (Best-narrower pos no_hit (rw (half-pow (suc k)) (rw doubled at rest)))

-- What fmap_find tells of a buffer of `size` bytes. A header inside stands at a multiple of a power
-- of two, and is the first of those at multiples of that power; and none stands at a multiple of
-- twice that power.
pub data Located (b : Bytes) (size : ℕ) : Option ℕ → Type 0 where
  absent :
      ((o : ℕ) → o + header_size ≤ size → o % 4 ≡ 0 → is_fmap b o ≡ false) → Located b size none
  at_start : header_size ≤ size → is_fmap b 0 ≡ true → Located b size (some 0)
  inside :
      (k : ℕ) {r : ℕ}
      → is_fmap b 0 ≡ false
      → r % 2 ^ k ≡ 0
      → r % 4 ≡ 0
      → r + header_size ≤ size
      → is_fmap b r ≡ true
      → ((o : ℕ)
          → o + header_size ≤ size
          → o % 4 ≡ 0
          → is_fmap b o ≡ true
          → (o % (2 ^ k * 2) ≢ 0) × (o % 2 ^ k ≡ 0 → r ≤ o))
      → Located b size (some r)

module _ (b : Bytes) (size : ℕ) where
  -- The alignment that `grow` reaches is above every offset.
  candidate :
      (a o : ℕ)
      → size - header_size < a
      → is_fmap b 0 ≡ false
      → o + header_size ≤ size
      → o % 4 ≡ 0
      → is_fmap b o ≡ true
      → Candidate (is_fmap b) (size - header_size) (a * 2) o
  candidate a zero above first fits aligned passes = cc
  candidate a (suc o) above first fits aligned passes = record {
    fits = omega arith;
    aligned = aligned;
    odd = omega (arith, mod-eq_of_lt {n = suc o} {m = a * 2} (omega arith));
    passes = passes;
  }

  Located-Best :
      (a : ℕ) {r : Option ℕ}
      → header_size ≤ size
      → size - header_size < a
      → is_fmap b 0 ≡ false
      → Best (is_fmap b) (size - header_size) (a * 2) r
      → Located b size r
  Located-Best a room above first (nothing no_candidate) = absent (λ o fits aligned.
      elim (Bool-cases (is_fmap b o)) [
        | inl passes ↦ absurd (no_candidate o (candidate a o above first fits aligned passes))
        | inr fails ↦ fails
      ])
  Located-Best a room above first (best k m q le found better) =
      inside k first m q (omega arith) found
        (λ o fits aligned passes. better o (candidate a o above first fits aligned passes))

  -- The descent from any power of two has rounds enough.
  descent :
      (a : ℕ)
      → (j : ℕ) × (a ≡ 2 ^ j)
      → Best (is_fmap b) (size - header_size) (a * 2) (descend (is_fmap b) (size - header_size) a a)
  descent a (j, e) = rw e (descend-Best (is_fmap b) (size - header_size) j (2 ^ j) (lt-pow j))

  -- fmap_find terminates. If it finds nothing, no offset that is a multiple of 4 holds a header
  -- that fits. If it finds a header, that is one, fits, and stands at the start of the buffer; or
  -- there is none at the start, and with 2 ^ k for the largest power of two of which the offset of
  -- a header that fits, at a multiple of 4, is a multiple, it is the first of those at multiples of
  -- 2 ^ k.
  pub fmap_find-Located : Located b size (fmap_find b size)
  unfolding fmap_find
  fmap_find-Located = elim (dec_lt size header_size) [
    | yes short ↦
        rw (lt→ltb size header_size short) (absent (λ o fits aligned. absurd (omega arith)))
    | no room ↦ elim (Bool-cases (is_fmap b 0)) [
      | inl here ↦ rw (ge→ltb size header_size room, here) (at_start (omega arith) here)
      | inr first ↦
          let lim = size - header_size in
          let a = grow (suc lim) lim 4 in
          rw (ge→ltb size header_size room, first)
            (Located-Best a (omega arith) (grow-lt (suc lim) lim 4 (omega arith) (omega arith))
              first (descent a (grow-pow (suc lim) lim 4 2 refl)))
    ]
  ]

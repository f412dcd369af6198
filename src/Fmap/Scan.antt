-- ===== src/Fmap/Scan.antt =====
-- The search of fmap_find finds a header wherever there is one, and prefers the offset that is
-- aligned best.
use futility.Prelude.{ℕ, zero, suc, ◌+◌, ◌*◌, ◌^◌, ◌<◌, ◌≤◌, leb, Bool, true, false}
use futility.Prelude.{Option, none, some, ◌≡◌, arith, inl, inr, Bool-cases}
use native.Mathlib.Nat.{pow-suc}
use futility.Fmap.Search.{grow, scan}

-- The loop ends by its test: above `lim`.
pub grow-lt : (f lim align : ℕ) → 0 < align → lim < align + f → lim < grow f lim align
unfolding grow
grow-lt zero lim align p h = omega arith
grow-lt (suc f) lim align p h = ground (arith, grow-lt f lim (align * 2))

pub grow-pow : (f lim align : ℕ) (k : ℕ) → align ≡ 2 ^ k → (j : ℕ) × (grow f lim align ≡ 2 ^ j)
unfolding grow
grow-pow zero lim align k h = (k, h)
grow-pow (suc f) lim align k h = elim (Bool-cases (leb align lim)) [
  | inl le ↦ rw (le, grow) (grow-pow f lim (align * 2) (suc k) (omega (arith, pow-suc 2 k)))
  | inr gt ↦ rw (gt, grow) (k, h)
]

module _ (test : ℕ → Bool) (lim : ℕ) where
  -- What a scan from `offset` in steps of `align * 2` has found.
  pub data Scanned (align offset : ℕ) : Option ℕ → Type 0 where
    missed :
        ((j : ℕ) → offset + j * (align * 2) ≤ lim → test (offset + j * (align * 2)) ≡ false)
        → Scanned align offset none
    hit :
        (k : ℕ) {r : ℕ}
        → r ≡ offset + k * (align * 2)
        → r ≤ lim
        → test r ≡ true
        → ((j : ℕ) → j < k → test (offset + j * (align * 2)) ≡ false)
        → Scanned align offset (some r)

  Scanned-next :
      {align offset : ℕ} {r : Option ℕ}
      → test offset ≡ false
      → Scanned align (offset + align * 2) r
      → Scanned align offset r
  Scanned-next {align} {offset} here (missed later) = missed (λ j le. tested j le)
    where
      zero_steps : offset + 0 * (align * 2) ≡ offset
      zero_steps = omega arith

      tested : (j : ℕ) → offset + j * (align * 2) ≤ lim → test (offset + j * (align * 2)) ≡ false
      tested zero le = rw zero_steps here
      tested (suc j) le = ground (arith, later j)
  Scanned-next {align} {offset} here (hit k e le found before) =
      hit (suc k) (omega arith) le found (λ j lt. tested j lt)
    where
      zero_steps : offset + 0 * (align * 2) ≡ offset
      zero_steps = omega arith

      tested : (j : ℕ) → j < suc k → test (offset + j * (align * 2)) ≡ false
      tested zero lt = rw zero_steps here
      tested (suc j) lt = ground (arith, before j)

  pub scan-Scanned :
      (f align offset : ℕ)
      → 0 < align
      → lim < offset + f
      → Scanned align offset (scan test lim f align offset)
  unfolding scan
  scan-Scanned zero align offset p h = missed (λ j le. absurd (omega arith))
  scan-Scanned (suc f) align offset p h = elim (Bool-cases (leb offset lim)) [
    | inr past ↦ rw (past, scan) (missed (λ j le. absurd (ground arith)))
    | inl fits ↦ elim (Bool-cases (test offset)) [
      | inl found ↦
          rw (fits, found, scan) (hit 0 (omega arith) (ground arith) found (λ j lt. elim lt [ ]))
      | inr not_here ↦
          rw (fits, not_here, scan)
            (Scanned-next not_here (scan-Scanned f align (offset + align * 2) p (omega arith)))
    ]
  ]

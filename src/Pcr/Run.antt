-- ===== src/Pcr/Run.antt =====
-- What do_pcr computes, and how it ends.
use futility.Prelude.{
  ℕ, ◌≤◌, ◌≡◌, refl, arith, ap, Option, none, some, List, [], ◌∷◌, ◌++◌, length, take, replicate,
  Bool, true, false, option_cases, if◌then◌else◌,
}
use futility.Pcr.Defs.{
  DigestAlg, digest_size, parse_digest, print_digest, Line, pcr, plus, Exit, success, usage, died,
  digest_error, extend_each, do_pcr,
}

-- The lines of the values that the PCR takes, of all the lines.
abbrev pub last_pcr : List ℕ → List Line → List ℕ
last_pcr value [] = value
last_pcr value (pcr text ∷ lines) = last_pcr text lines
last_pcr value (plus text ∷ lines) = last_pcr value lines

module _ (digest_buf : List ℕ → DigestAlg → Option (List ℕ)) (alg : DigestAlg) where
  -- The PCR extended by one digest after another, as a TPM does it: it takes the digest of its value
  -- and the digest that is added.
  pub data Extends : List ℕ → List (List ℕ) → List ℕ → Type 0 where
    none_left : (value : List ℕ) → Extends value [] value
    extend :
        (value added digest final : List ℕ) (digests : List (List ℕ))
        → digest_buf (value ++ added) alg ≡ some digest
        → Extends (take (digest_size alg) digest) digests final
        → Extends value (added ∷ digests) final

  -- Each argument gives a digest.
  abbrev pub Parse : List (List ℕ) → List (List ℕ) → Type 0
  Parse [] [] = Unit {0}
  Parse [] (d ∷ ds) = ⊥
  Parse (arg ∷ argv) [] = ⊥
  Parse (arg ∷ argv) (d ∷ ds) = (parse_digest (digest_size alg) arg ≡ some d) × Parse argv ds

  -- How the loop ends, for each way in which it can.
  abbrev pub LoopOutcome : List ℕ → List (List ℕ) → List Line → Exit → Type 0
  LoopOutcome value argv lines success =
      (digests : List (List ℕ)) × (final : List ℕ) × Parse argv digests
      × Extends value digests final
      × (last_pcr (print_digest value) lines ≡ print_digest final)
  LoopOutcome value argv lines usage = ⊥
  LoopOutcome value argv lines digest_error = (input : List ℕ) × (digest_buf input alg ≡ none)
  LoopOutcome value argv lines died =
      (before : List (List ℕ)) × (arg : List ℕ) × (after : List (List ℕ)) × (argv
        ≡ before ++ (arg ∷ after))
      × (parse_digest (digest_size alg) arg ≡ none)

  more-LoopOutcome :
      (value arg added digest : List ℕ) (argv : List (List ℕ)) (lines : List Line) (exit : Exit)
      → parse_digest (digest_size alg) arg ≡ some added
      → digest_buf (value ++ added) alg ≡ some digest
      → LoopOutcome (take (digest_size alg) digest) argv lines exit
      → LoopOutcome value
          (arg ∷ argv)
          (plus (print_digest added) ∷ pcr (print_digest (take (digest_size alg) digest)) ∷ lines)
          exit
  more-LoopOutcome value arg added digest argv lines success p d (digests, final, ps, es, l) =
      (added ∷ digests, final, (p, ps), extend value added digest final digests d es, l)
  more-LoopOutcome value arg added digest argv lines usage p d h = h
  more-LoopOutcome value arg added digest argv lines digest_error p d h = h
  more-LoopOutcome value arg added digest argv lines died p d (before, bad, after, e, n) =
      (arg ∷ before, bad, after, ap (λ (t : List (List ℕ)). arg ∷ t) e, n)

  extend_each-LoopOutcome :
      (value : List ℕ) (argv : List (List ℕ))
      → LoopOutcome value argv
          (extend_each digest_buf alg value argv).0
          (extend_each digest_buf alg value argv).1
  unfolding extend_each
  extend_each-LoopOutcome value [] = ([], value, tt, none_left value, refl)
  extend_each-LoopOutcome value (arg ∷ argv) =
      option_cases (λ (r : List Line × Exit). LoopOutcome value (arg ∷ argv) r.0 r.1)
        (parse_digest (digest_size alg) arg) (λ bad. ([], arg, argv, refl, bad))
        (λ added parsed.
          option_cases (λ (r : List Line × Exit). LoopOutcome value (arg ∷ argv) r.0 r.1)
            (digest_buf (value ++ added) alg) (λ bad. (value ++ added, bad))
            (λ digest computed.
              let next = take (digest_size alg) digest in
              let r = extend_each digest_buf alg next argv in
              more-LoopOutcome value arg added digest argv r.0 r.1 parsed computed
                (extend_each-LoopOutcome next argv)))

  -- What do_pcr has printed, for each way in which it ends.
  abbrev pub Outcome : Bool → List (List ℕ) → List Line → Exit → Type 0
  Outcome false argv lines success =
      (digests : List (List ℕ)) × (final : List ℕ) × (1 ≤ length argv)
      × Parse argv digests
      × Extends (replicate (digest_size alg) 0) digests final
      × (last_pcr [] lines ≡ print_digest final)
  Outcome true argv lines success =
      (first : List ℕ) × (digests : List (List ℕ)) × (final : List ℕ) × (2 ≤ length argv)
      × Parse argv (first ∷ digests)
      × Extends first digests final
      × (last_pcr [] lines ≡ print_digest final)
  Outcome opt_init argv lines usage = length argv ≤ (if opt_init then 1 else 0)
  Outcome opt_init argv lines digest_error = (input : List ℕ) × (digest_buf input alg ≡ none)
  Outcome opt_init argv lines died =
      (before : List (List ℕ)) × (arg : List ℕ) × (after : List (List ℕ)) × (argv
        ≡ before ++ (arg ∷ after))
      × (parse_digest (digest_size alg) arg ≡ none)

  first-Outcome :
      (arg : List ℕ) (argv : List (List ℕ)) (lines : List Line) (exit : Exit)
      → LoopOutcome (replicate (digest_size alg) 0) (arg ∷ argv) lines exit
      → Outcome false (arg ∷ argv) (pcr (print_digest (replicate (digest_size alg) 0)) ∷ lines) exit
  first-Outcome arg argv lines success (digests, final, ps, es, l) =
      (digests, final, omega arith, ps, es, l)
  first-Outcome arg argv lines usage h = absurd h
  first-Outcome arg argv lines digest_error h = h
  first-Outcome arg argv lines died h = h

  init-Outcome :
      (first arg arg' : List ℕ) (argv : List (List ℕ)) (lines : List Line) (exit : Exit)
      → parse_digest (digest_size alg) arg ≡ some first
      → LoopOutcome first (arg' ∷ argv) lines exit
      → Outcome true (arg ∷ arg' ∷ argv) (pcr (print_digest first) ∷ lines) exit
  init-Outcome first arg arg' argv lines success p (digests, final, ps, es, l) =
      (first, digests, final, omega arith, (p, ps), es, l)
  init-Outcome first arg arg' argv lines usage p h = absurd h
  init-Outcome first arg arg' argv lines digest_error p h = h
  init-Outcome first arg arg' argv lines died p (before, bad, after, e, n) =
      (arg ∷ before, bad, after, ap (λ (t : List (List ℕ)). arg ∷ t) e, n)

  -- do_pcr prints the value of the PCR extended by each digest in turn, from zero or from the first
  -- argument; or it ends with an error, and then there are too few arguments, one of them is no digest,
  -- or DigestBuf fails.
  pub do_pcr-Outcome :
      (opt_init : Bool) (argv : List (List ℕ))
      → Outcome opt_init argv
          (do_pcr digest_buf alg opt_init argv).0
          (do_pcr digest_buf alg opt_init argv).1
  unfolding do_pcr
  do_pcr-Outcome true [] = omega arith
  do_pcr-Outcome false [] = omega arith
  do_pcr-Outcome true (arg ∷ []) = omega arith
  do_pcr-Outcome false (arg ∷ argv) =
      let zeros = replicate (digest_size alg) 0 in
      let r = extend_each digest_buf alg zeros (arg ∷ argv) in
      first-Outcome arg argv r.0 r.1 (extend_each-LoopOutcome zeros (arg ∷ argv))
  do_pcr-Outcome true (arg ∷ arg' ∷ argv) =
      option_cases (λ (r : List Line × Exit). Outcome true (arg ∷ arg' ∷ argv) r.0 r.1)
        (parse_digest (digest_size alg) arg) (λ bad. ([], arg, arg' ∷ argv, refl, bad))
        (λ first parsed.
          let r = extend_each digest_buf alg first (arg' ∷ argv) in
          init-Outcome first arg arg' argv r.0 r.1 parsed
            (extend_each-LoopOutcome first (arg' ∷ argv)))

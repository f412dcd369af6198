-- ===== src/Pcr/Tests.antt =====
-- Digests read and extended.
use futility.Prelude.{
  ℕ, ◌+◌, ◌%◌, ◌≡◌, refl, arith, some, none, Option, List, [], ◌∷◌, ◌++◌, length, replicate, ◌↔◌,
  true,
}
use futility.Prelude.Text.{codes}
use futility.Pcr.Defs.{
  DigestAlg, sha1, digest_size, parse_hex, skip_space, parse_digest, print_digest, do_pcr,
}
use futility.Pcr.Digits.{parse_digest-print_digest}
use futility.Pcr.Spelling.{Spells, parse_digest_iff}
use futility.Pcr.Run.{Outcome, do_pcr-Outcome}

parse_digest_test : parse_digest 3 (codes " b5 2A\tfe and more") ≡ some (0xB5 ∷ 0x2A ∷ 0xFE ∷ [])
unfolding parse_digest parse_hex skip_space
parse_digest_test = refl

too_short_test : parse_digest 3 (codes "b5 2") ≡ none
unfolding parse_digest parse_hex skip_space
too_short_test = refl

parse_digest-print_digest_test :
    parse_digest 2 (print_digest (0x0F ∷ 0xA0 ∷ []) ++ codes "zz") ≡ some (0x0F ∷ 0xA0 ∷ [])
parse_digest-print_digest_test =
    parse_digest-print_digest (0x0F ∷ 0xA0 ∷ []) (codes "zz") (omega arith, (omega arith, tt))

parse_digest_iff_example :
    (parse_digest 1 (codes " 0f") ≡ some (15 ∷ []))
    ↔ ((length {A = ℕ} (15 ∷ []) ≡ 1) × Spells (15 ∷ []) (codes " 0f"))
parse_digest_iff_example = parse_digest_iff 1 (codes " 0f") (15 ∷ [])

-- A digest for tests: each byte is the sum of all.
abbrev sum : List ℕ → ℕ
sum [] = 0
sum (x ∷ xs) = x + sum xs

abbrev checksum : List ℕ → DigestAlg → Option (List ℕ)
checksum bytes alg = some (replicate (digest_size alg) (sum bytes % 256))

abbrev digest_text : List ℕ
digest_text = codes "b52791126f96a21a8ba4d511c6f25a1c1eb6dc9e"

do_pcr-Outcome_example :
    Outcome checksum sha1 true
      (digest_text ∷ digest_text ∷ [])
      (do_pcr checksum sha1 true (digest_text ∷ digest_text ∷ [])).0
      (do_pcr checksum sha1 true (digest_text ∷ digest_text ∷ [])).1
do_pcr-Outcome_example = do_pcr-Outcome checksum sha1 true (digest_text ∷ digest_text ∷ [])

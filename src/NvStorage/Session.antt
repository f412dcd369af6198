-- ===== src/NvStorage/Session.antt =====
-- A boot's use of the block: VbNvSetup, calls of VbNvSet, VbNvTeardown; and the next VbNvSetup.
use futility.Prelude.{ℕ, ◌/◌, ◌^◌, ◌<◌, ◌≡◌, refl, arith}
use futility.Prelude.{true, false, some, inl, List, [], ◌∷◌, ◌⊎◌}
use futility.NvStorage.Crc.{crc8}
use futility.NvStorage.Defs.{VbNvContext, VbNvParam, block, get, nv_set, setup, teardown}
use futility.NvStorage.Defs.{firmware_settings_reset}
use futility.NvStorage.Fields.{place, replace}
use futility.NvStorage.Bytes.{and_signature}
use futility.NvStorage.Access.{IsBytes}
use futility.NvStorage.Laws.{Fits, clip-Fits, replace-IsBytes, kept, refused, stored}
use futility.NvStorage.Laws.{nv_set-SetOutcome}

-- What holds between VbNvSetup and VbNvTeardown.
pub record IsSound (c : VbNvContext) : Type 0 where
  pub bytes : IsBytes c.raw
  pub signed : c.raw 0 / 64 ≡ 1
  pub checked : (c.regenerate_crc ≡ true) ⊎ (crc8 (block c.raw) ≡ c.raw 15)

-- The header's signature is no parameter's place.
replace-signed :
    (raw raw' : ℕ → ℕ) (p : VbNvParam) (v : ℕ)
    → IsBytes raw
    → Fits (place p) v
    → replace raw (place p) v ≡ some raw'
    → raw' 0 / 64 ≡ raw 0 / 64
replace-signed raw raw' firmware_settings_reset v b h e = ground arith
replace-signed raw raw' _ v b h e = ground arith

-- VbNvSetup makes any sixteen bytes sound.
pub setup-IsSound : (c : VbNvContext) → IsBytes c.raw → IsSound (setup c)
unfolding setup
setup-IsSound c b = record {
  bytes = λ i. ground (arith, b i);
  signed = ground (arith, and_signature (c.raw 0), b 0);
  checked = ground (arith, b 0);
}

-- VbNvSet keeps the block sound.
pub nv_set-IsSound :
    (c : VbNvContext) (p : VbNvParam) (v : ℕ) → v < 2 ^ 32 → IsSound c → IsSound (nv_set c p v).0
nv_set-IsSound c p v h s = elim (nv_set-SetOutcome c p v s.bytes h) [
  | kept e _ ↦ rw e s
  | refused e _ ↦ rw e s
  | stored raw' r e ↦ rw e (record {
    bytes = replace-IsBytes c.raw raw' p _ s.bytes (clip-Fits p v h) r;
    signed = ground (arith, s.signed, replace-signed c.raw raw' p _ s.bytes (clip-Fits p v h) r);
    checked = inl refl;
  })
]

-- The block that VbNvTeardown leaves passes the checks of VbNvSetup, which changes none of its
-- bytes and asks for no new CRC.
pub setup-teardown :
    (c : VbNvContext)
    → IsSound c
    → ((setup (teardown c)).raw ≡ (teardown c).raw) × ((setup (teardown c)).regenerate_crc ≡ false)
unfolding setup teardown
setup-teardown c s = ground (arith, and_signature (c.raw 0), s.bytes 0, s.signed, s.checked)

-- VbNvTeardown changes no parameter.
get-teardown : (c : VbNvContext) (p : VbNvParam) → get (teardown c).raw p ≡ get c.raw p
unfolding get teardown
get-teardown c firmware_settings_reset = ground arith
get-teardown c _ = ground arith

abbrev pub Request : Type 0
Request = VbNvParam × ℕ

unfoldable pub set_all : VbNvContext → List Request → VbNvContext
set_all c [] = c
set_all c ((p, v) ∷ rest) = set_all (nv_set c p v).0 rest

abbrev pub AreWords : List Request → Type 0
AreWords [] = Unit {0}
AreWords ((p, v) ∷ rest) = (v < 2 ^ 32) × AreWords rest

set_all-IsSound :
    (c : VbNvContext) (rs : List Request) → AreWords rs → IsSound c → IsSound (set_all c rs)
unfolding set_all
set_all-IsSound c [] h s = s
set_all-IsSound c ((p, v) ∷ rest) h s =
    set_all-IsSound (nv_set c p v).0 rest h.1 (nv_set-IsSound c p v h.0 s)

-- Whatever bytes a boot starts from and whatever it sets, the next boot's VbNvSetup accepts the
-- block that it leaves, so every parameter reads as it did when the last VbNvSet returned.
pub get-next_boot :
    (c : VbNvContext) (rs : List Request) (p : VbNvParam)
    → IsBytes c.raw
    → AreWords rs
    → get (setup (teardown (set_all (setup c) rs))).raw p ≡ get (set_all (setup c) rs).raw p
get-next_boot c rs p b h =
    let sound = set_all-IsSound (setup c) rs h (setup-IsSound c b) in
    rw ((setup-teardown _ sound).0) (get-teardown _ p)

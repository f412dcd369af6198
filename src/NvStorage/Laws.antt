-- ===== src/NvStorage/Laws.antt =====
-- What a caller of VbNvGet and VbNvSet may rely on, from the layout of `Fields`.
use futility.Prelude.{ℕ, ◌^◌, ◌<◌, ◌≡◌, ◌≢◌, refl, arith, sym, ◌∙◌}
use futility.Prelude.{Option, none, some, inl, inr, Bool-cases, Option-cases, true}
use futility.NvStorage.Defs.{VbNvContext, VbNvParam, get, holds, nv_set}
use futility.NvStorage.Defs.{firmware_settings_reset, max_param}
use futility.NvStorage.Fields.{Place, bits, word, nowhere, place, value_at, replace, clip}
use futility.NvStorage.Access.{IsBytes, get-value_at, put-replace}

-- The value fits the place.
abbrev pub Fits : Place → ℕ → Type 0
Fits (bits byte low size) v = v < size
Fits word v = v < 2 ^ 32
Fits nowhere v = v < 2 ^ 32

pub clip-Fits : (p : VbNvParam) (v : ℕ) → v < 2 ^ 32 → Fits (place p) (clip p v)
clip-Fits firmware_settings_reset v h = ground arith
clip-Fits _ v h = ground arith

clip_idempotent : (p : VbNvParam) (v : ℕ) → Fits (place p) v → clip p v ≡ v
clip_idempotent firmware_settings_reset v h = ground arith
clip_idempotent _ v h = ground arith

value_at-Fits :
    (raw : ℕ → ℕ) (p : VbNvParam) (v : ℕ)
    → IsBytes raw
    → value_at raw (place p) ≡ some v
    → Fits (place p) v
value_at-Fits raw firmware_settings_reset v b h = ground (arith, b 0)
value_at-Fits raw _ v b h = ground (arith, b 11, b 12, b 13, b 14)

-- What is put at a place is read there.
value_at-replace :
    (raw raw' : ℕ → ℕ) (p : VbNvParam) (v : ℕ)
    → Fits (place p) v
    → replace raw (place p) v ≡ some raw'
    → value_at raw' (place p) ≡ some v
value_at-replace raw raw' firmware_settings_reset v h e = ground (arith)
value_at-replace raw raw' _ v h e = ground (arith)

-- Places that differ share no bit.
value_at-replace_ne :
    (raw raw' : ℕ → ℕ) (p q : VbNvParam) (v : ℕ)
    → Fits (place p) v
    → place p ≢ place q
    → replace raw (place p) v ≡ some raw'
    → value_at raw' (place q) ≡ value_at raw (place q)
value_at-replace_ne raw raw' firmware_settings_reset firmware_settings_reset v h ne e = ground arith
value_at-replace_ne raw raw' _ _ v h ne e = ground arith

replace_fails :
    (raw : ℕ → ℕ) (p : VbNvParam) (v : ℕ) → replace raw (place p) v ≡ none → p ≡ max_param
replace_fails raw firmware_settings_reset v e = cc
replace_fails raw max_param v e = refl
replace_fails raw _ v e = cc

-- The ways in which VbNvSet returns.
pub data SetOutcome (c : VbNvContext) (p : VbNvParam) (v : ℕ) (result : VbNvContext × ℕ)
    : Type 0 where
  kept : result ≡ (c, 0) → get c.raw p ≡ some v → SetOutcome c p v result
  refused : result ≡ (c, 1) → p ≡ max_param → SetOutcome c p v result
  stored :
      (raw' : ℕ → ℕ)
      → replace c.raw (place p) (clip p v) ≡ some raw'
      → result ≡ (record c { raw = raw'; regenerate_crc = true }, 0)
      → SetOutcome c p v result

holds_iff : (o : Option ℕ) (v : ℕ) → holds o v ≡ true → o ≡ some v
holds_iff none v h = cc
holds_iff (some u) v h = ground arith

-- VbNvSet leaves a value that is already there alone, refuses a parameter that is none, and else
-- replaces the value's place and asks for a new CRC.
pub nv_set-SetOutcome :
    (c : VbNvContext) (p : VbNvParam) (v : ℕ)
    → IsBytes c.raw
    → v < 2 ^ 32
    → SetOutcome c p v (nv_set c p v)
unfolding nv_set
nv_set-SetOutcome c p v b h = elim (Bool-cases (holds (get c.raw p) v)) [
  | inl same ↦ kept (rw same) (holds_iff _ v same)
  | inr other ↦ elim (Option-cases (replace c.raw (place p) (clip p v))) [
    | inl e ↦ refused (rw (other, put-replace c.raw p v b h, e)) (replace_fails c.raw p _ e)
    | inr (raw', e) ↦ stored raw' e (rw (other, put-replace c.raw p v b h, e))
  ]
]

pub replace-IsBytes :
    (raw raw' : ℕ → ℕ) (p : VbNvParam) (v : ℕ)
    → IsBytes raw
    → Fits (place p) v
    → replace raw (place p) v ≡ some raw'
    → IsBytes raw'
replace-IsBytes raw raw' firmware_settings_reset v b h e i = ground (arith, b i, b 0)
replace-IsBytes raw raw' _ v b h e i = ground (arith, b i, b 0, b 1, b 2, b 3, b 4, b 5, b 6, b 7)

-- Every parameter that VbNvSet accepts reads back, by VbNvGet, as the value stored, which is the
-- value asked for where it lies in the parameter's range. Values are 32-bit.
pub get-nv_set :
    (c : VbNvContext) (p : VbNvParam) (v : ℕ)
    → IsBytes c.raw
    → v < 2 ^ 32
    → p ≢ max_param
    → (get (nv_set c p v).0.raw p ≡ some (clip p v)) × ((nv_set c p v).1 ≡ 0)
get-nv_set c p v b h ne = elim (nv_set-SetOutcome c p v b h) [
  | kept e same ↦
      let fits = value_at-Fits c.raw p v b (sym (get-value_at c.raw p b) ∙ same) in
      rw (e, clip_idempotent p v fits) (same, refl)
  | refused e is_max ↦ absurd (ne is_max)
  | stored raw' r e ↦
      let fits = clip-Fits p v h in
      rw (e, get-value_at raw' p (replace-IsBytes c.raw raw' p _ b fits r))
        (value_at-replace c.raw raw' p _ fits r, refl)
]

-- A call of VbNvSet changes no parameter kept at another place, whatever value it is given.
pub get-nv_set_ne :
    (c : VbNvContext) (p q : VbNvParam) (v : ℕ)
    → IsBytes c.raw
    → v < 2 ^ 32
    → place p ≢ place q
    → get (nv_set c p v).0.raw q ≡ get c.raw q
get-nv_set_ne c p q v b h ne = elim (nv_set-SetOutcome c p v b h) [
  | kept e same ↦ rw e
  | refused e is_max ↦ rw e
  | stored raw' r e ↦
      let fits = clip-Fits p v h in
      rw (e, get-value_at raw' q (replace-IsBytes c.raw raw' p _ b fits r), get-value_at c.raw q b)
        (value_at-replace_ne c.raw raw' p q _ fits ne r)
]

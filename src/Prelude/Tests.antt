-- ===== src/Prelude/Tests.antt =====
-- Boolean tests on the native numbers, and the conditional.
use Prim.Native.Nat.{ℕ, zero, suc, ◌+◌, ◌<◌, compare, Ordering}
use mathlib.Core.Path.{◌≡◌, refl, ap}
use mathlib.Core.Logic.{◌↔◌, ◌⊎◌, inl, inr}
use mathlib.Core.Bool.{Bool, true, false}
use mathlib.Core.Option.{Option, none, some}
use native.Mathlib.Omega.{arith}

abbrev pub ltb : ℕ → ℕ → Bool
ltb a b = elim (compare a b) [ Ordering.lt ↦ true | _ ↦ false ]

abbrev pub leb : ℕ → ℕ → Bool
leb a b = elim (compare a b) [ Ordering.gt ↦ false | _ ↦ true ]

infix 50 ◌==◌ ◌/=◌
abbrev pub ◌==◌ : ℕ → ℕ → Bool
a == b = elim (compare a b) [ Ordering.eq ↦ true | _ ↦ false ]

abbrev pub ◌/=◌ : ℕ → ℕ → Bool
a /= b = elim (compare a b) [ Ordering.eq ↦ false | _ ↦ true ]

infix 1 if◌then◌else◌
abbrev pub if◌then◌else◌ {ℓ} : {A : Type ℓ} → Bool → A → A → A
if true then x else y = x
if false then x else y = y

pub ==_iff : (a b : ℕ) → ((a == b) ≡ true) ↔ (a ≡ b)
==_iff a b = ground arith

-- To split on a computed value and keep the equation.
pub Bool-cases : (b : Bool) → (b ≡ true) ⊎ (b ≡ false)
Bool-cases true = inl refl
Bool-cases false = inr refl

pub Option-cases {ℓ} : {A : Type ℓ} (o : Option A) → (o ≡ none) ⊎ ((a : A) × (o ≡ some a))
Option-cases none = inl refl
Option-cases (some a) = inr (a, refl)

pub compare_with : (a b : ℕ) → (a < b) ⊎ ((a ≡ b) ⊎ (b < a))
compare_with a b = ground arith

-- Where a count of rounds is used up.
pub add-zero_eq : (i n : ℕ) → i + 0 ≡ n → i ≡ n
add-zero_eq i n e = omega arith

-- What holds of both branches, given what their test says, holds of the conditional.
pub if_cases {ℓ κ} :
    {A : Type ℓ} (P : A → Type κ) (b : Bool) {x y : A}
    → (b ≡ true → P x)
    → (b ≡ false → P y)
    → P (if b then x else y)
if_cases P true p q = p refl
if_cases P false p q = q refl

-- So too with the branches of an optional value.
pub option_cases {ℓ κ μ} :
    {A : Type ℓ} {B : Type κ} (P : B → Type μ) (o : Option A) {x : B} {f : A → B}
    → (o ≡ none → P x)
    → ((a : A) → o ≡ some a → P (f a))
    → P (elim o [ none ↦ x | some a ↦ f a ])
option_cases P none p q = p refl
option_cases P (some a) p q = q a refl

-- The branch taken for a value that is known.
pub option_some {ℓ κ} :
    {A : Type ℓ} {B : Type κ} {o : Option A} {a : A} (x : B) (f : A → B)
    → o ≡ some a
    → (elim o [ none ↦ x | some a' ↦ f a' ]) ≡ f a
option_some x f e = ap (λ o. elim o [ none ↦ x | some a' ↦ f a' ]) e

pub option_none {ℓ κ} :
    {A : Type ℓ} {B : Type κ} {o : Option A} (x : B) (f : A → B)
    → o ≡ none
    → (elim o [ none ↦ x | some a ↦ f a ]) ≡ x
option_none x f e = ap (λ o. elim o [ none ↦ x | some a ↦ f a ]) e

-- A test passes at 0, 1, …, `count` less 1: by evaluation, for a test without variables.
unfoldable pub all_below : ℕ → (ℕ → Bool) → Bool
all_below zero test = true
all_below (suc count) test = if test count then all_below count test else false

pub all_below_sound :
    (count : ℕ) (test : ℕ → Bool)
    → all_below count test ≡ true
    → (i : ℕ) → i < count
    → test i ≡ true
unfolding all_below
all_below_sound zero test passes i less = absurd (omega arith)
all_below_sound (suc count) test passes i less =
    ground (arith, λ (earlier : all_below count test ≡ true). all_below_sound count test earlier i)

-- Where a test is known, as an equation to rewrite by.
pub lt→ltb : (a b : ℕ) → a < b → ltb a b ≡ true
lt→ltb a b h = ground arith

pub ge→ltb : (a b : ℕ) → ¬ (a < b) → ltb a b ≡ false
ge→ltb a b h = ground arith

-- ===== src/Gpt/Order.antt =====
-- The order in which GptNextKernelEntry gives the kernels.
use futility.Prelude.{
  add-zero_eq, compare_with, ℕ, zero, suc, ◌+◌, ◌-◌, ◌≤◌, ◌<◌, ◌==◌, ==_iff, ◌≡◌, ◌≢◌, ◌⊎◌, inl,
  inr, refl, sym, ap, ◌∙◌,
}
use futility.Prelude.{true, false, if◌then◌else◌, Bool, Bool-cases, Option, none, some}
use futility.Prelude.{Option-cases, arith}
use mathlib.Core.Path.{subst}
use futility.Prelude.Memory.{Bytes}
use futility.Gpt.Entry.{get_entry_priority}
use futility.Gpt.Check.{number_of_entries}
use futility.Gpt.Kernel.{
  KernelState, is_bootable, is_better, same_priority, lower_priority, scan_same, choose,
}
use futility.Gpt.Kernel.{gpt_next_kernel_entry}

-- What the first loop finds: the first bootable kernel of the priority.
abbrev SameFound : Bytes → ℕ → ℕ → ℕ → Option ℕ → Type 0
SameFound b prio i left none =
    (j : ℕ) → i ≤ j → j < i + left → is_bootable b j ≡ true → get_entry_priority b j ≢ prio
SameFound b prio i left (some k) =
    (i ≤ k)
    × (k < i + left)
    × (is_bootable b k ≡ true)
    × (get_entry_priority b k ≡ prio)
    × ((j : ℕ) → i ≤ j → j < k → is_bootable b j ≡ true → get_entry_priority b j ≢ prio)

-- What the second loop has found in the entries below `m`: the first of the highest priority.
abbrev Best : Bytes → ℕ → ℕ → Option ℕ → ℕ → Type 0
Best b limit m none prio =
    (prio ≡ 0)
    × ((j : ℕ)
        → j < m
        → is_bootable b j ≡ true
        → get_entry_priority b j < limit
        → get_entry_priority b j ≡ 0)
Best b limit m (some k) prio =
    (k < m)
    × (is_bootable b k ≡ true)
    × (get_entry_priority b k ≡ prio)
    × (prio < limit)
    × ((j : ℕ)
        → j < m
        → is_bootable b j ≡ true
        → get_entry_priority b j < limit
        → (get_entry_priority b j ≤ prio) × (j < k → get_entry_priority b j < prio))

SameFound-step :
    (b : Bytes) (prio i left : ℕ) (rest : Option ℕ)
    → SameFound b prio (i + 1) left rest
    → ¬ ((is_bootable b i ≡ true) × (get_entry_priority b i ≡ prio))
    → SameFound b prio i (suc left) rest
SameFound-step b prio i left none h other = λ j l m boots same. elim (Bool-cases (i == j)) [
  | inl e ↦ let e' : j ≡ i = sym ((==_iff i j).0 e) in other (rw (sym e') boots, rw (sym e') same)
  | inr e ↦ h j (ground arith) (omega arith) boots same
]
SameFound-step b prio i left (some k) (l, m, boots, same, before) other = (
  omega arith,
  omega arith,
  boots,
  same,
  λ j p q c d. elim (Bool-cases (i == j)) [
    | inl e ↦ let e' : j ≡ i = sym ((==_iff i j).0 e) in other (rw (sym e') c, rw (sym e') d)
    | inr e ↦ before j (ground arith) q c d
  ],
)

same_priority-SameFound :
    (b : Bytes) (prio left i : ℕ) → SameFound b prio i left (same_priority b prio left i)
unfolding same_priority
same_priority-SameFound b prio zero i = λ j l m. absurd (omega arith)
same_priority-SameFound b prio (suc left) i =
    let h = same_priority-SameFound b prio left (i + 1) in
    elim (Bool-cases (is_bootable b i)) [
      | inr e ↦ rw (e) (SameFound-step b prio i left _ h (λ (boots, _). ground arith))
      | inl e ↦ elim (Bool-cases (get_entry_priority b i == prio)) [
        | inl same ↦
            rw (e, same)
              (omega arith, omega arith, e, (==_iff _ _).0 same, λ j l m. absurd (omega arith))
        | inr differs ↦
            rw (e, differs) (SameFound-step b prio i left _ h (λ (_, same). ground arith))
      ]
    ]

better-Best :
    (b : Bytes) (limit m : ℕ) (kernel : Option ℕ) (prio : ℕ)
    → is_better b limit m prio ≡ true
    → Best b limit m kernel prio
    → Best b limit (m + 1) (some m) (get_entry_priority b m)
better-Best b limit m none prio better (zero_prio, all) = (
  omega arith,
  ground arith,
  refl,
  ground arith,
  λ j l boots below. elim (Bool-cases (j == m)) [
    | inl e ↦ let e' = (==_iff j m).0 e in (rw e' (omega arith), λ lt. absurd (omega arith))
    | inr e ↦ let h = all j (ground arith) boots below in (omega arith, λ lt. ground arith)
  ],
)
better-Best b limit m (some k) prio better (_, _, _, _, all) = (
  omega arith,
  ground arith,
  refl,
  ground arith,
  λ j l boots below. elim (Bool-cases (j == m)) [
    | inl e ↦ let e' = (==_iff j m).0 e in (rw e' (omega arith), λ lt. absurd (omega arith))
    | inr e ↦ let h = all j (ground arith) boots below in (ground arith, λ lt. ground arith)
  ],
)

-- What the entry `m` is, if it is not better.
not_better :
    (b : Bytes) (limit m prio : ℕ)
    → is_better b limit m prio ≡ false
    → is_bootable b m ≡ true
    → get_entry_priority b m < limit
    → get_entry_priority b m ≤ prio
not_better b limit m prio worse boots below = ground arith

worse-Best :
    (b : Bytes) (limit m : ℕ) (kernel : Option ℕ) (prio : ℕ)
    → is_better b limit m prio ≡ false
    → Best b limit m kernel prio
    → Best b limit (m + 1) kernel prio
worse-Best b limit m none prio worse (zero_prio, all) = (
  zero_prio,
  λ j l boots below. elim (Bool-cases (j == m)) [
    | inl e ↦
        let e' = (==_iff j m).0 e in
        rw e'
          (omega (arith, not_better b limit m prio worse (rw (sym e') boots) (rw (sym e') below)))
    | inr e ↦ all j (ground arith) boots below
  ],
)
worse-Best b limit m (some k) prio worse (l', boots', same, below', all) = (
  omega arith,
  boots',
  same,
  below',
  λ j l boots below. elim (Bool-cases (j == m)) [
    | inl e ↦
        let e' = (==_iff j m).0 e in
        rw e' (
          not_better b limit m prio worse (rw (sym e') boots) (rw (sym e') below),
          λ lt. absurd (omega arith),
        )
    | inr e ↦ all j (ground arith) boots below
  ],
)

round-Best :
    (b : Bytes) (limit m : ℕ) (kernel : Option ℕ) (prio : ℕ) (better : Bool)
    → is_better b limit m prio ≡ better
    → Best b limit m kernel prio
    → Best b limit
        (m + 1)
        (if better then some m else kernel)
        (if better then get_entry_priority b m else prio)
round-Best b limit m kernel prio true e h = better-Best b limit m kernel prio e h
round-Best b limit m kernel prio false e h = worse-Best b limit m kernel prio e h

lower_priority-Best :
    (b : Bytes) (limit left i n : ℕ) (kernel : Option ℕ) (prio : ℕ)
    → i + left ≡ n
    → Best b limit i kernel prio
    → (let r = lower_priority b limit left i kernel prio in Best b limit n r.0 r.1)
unfolding lower_priority
lower_priority-Best b limit zero i n kernel prio e h =
    subst (λ (t : ℕ). Best b limit t kernel prio) (add-zero_eq i n e) h
lower_priority-Best b limit (suc left) i n kernel prio e h =
    lower_priority-Best b limit left (i + 1) n _ _ (omega arith)
      (round-Best b limit i kernel prio (is_better b limit i prio) refl h)

-- The first scan, for a kernel found before.
scan_same-SameFound :
    (h b : Bytes) (s : KernelState) (c : ℕ)
    → s.current_kernel ≡ some c
    → SameFound b s.current_priority (c + 1) (number_of_entries h - (c + 1)) (scan_same h b s)
unfolding scan_same
scan_same-SameFound h b s c e = rw e (same_priority-SameFound b s.current_priority _ (c + 1))

scan_same-no_kernel :
    (h b : Bytes) (s : KernelState) → s.current_kernel ≡ none → scan_same h b s ≡ none
unfolding scan_same
scan_same-no_kernel h b s e = rw e refl

-- The entry `j` comes after the state `s`: its priority is lower, or it has the same priority as
-- the current kernel and a higher index.
abbrev pub After : Bytes → KernelState → ℕ → Type 0
After b s j =
    (get_entry_priority b j < s.current_priority)
    ⊎ ((c : ℕ) × (s.current_kernel ≡ some c)
        × (c < j)
        × (get_entry_priority b j ≡ s.current_priority))

-- Of the bootable kernels that come after `s`, `k` is the first one: any other one comes after `t`.
abbrev pub IsNext : Bytes → Bytes → KernelState → KernelState → Option ℕ → Type 0
IsNext h b s t none =
    (j : ℕ)
    → j < number_of_entries h
    → is_bootable b j ≡ true
    → 0 < get_entry_priority b j
    → ¬ After b s j
IsNext h b s t (some k) =
    (k < number_of_entries h)
    × (is_bootable b k ≡ true)
    × After b s k
    × (get_entry_priority b k ≡ t.current_priority)
    × ((j : ℕ)
        → j < number_of_entries h
        → is_bootable b j ≡ true
        → 0 < get_entry_priority b j
        → After b s j
        → (j ≡ k) ⊎ After b t j)

none_some {ℓ} : {A : Type ℓ} (k : ℕ) → ◌≡◌ {A = Option ℕ} none (some k) → A
none_some k e = cc

same_or_lower :
    (b : Bytes) (j k prio : ℕ)
    → get_entry_priority b j ≤ prio
    → k < j
    → (j ≡ k) ⊎ After b (record { current_kernel = some k; current_priority = prio }) j
same_or_lower b j k prio h lt = elim (compare_with (get_entry_priority b j) prio) [
  | inl lower ↦ inr (inl lower)
  | inr (inl same) ↦ inr (inr (k, refl, lt, same))
  | inr (inr higher) ↦ absurd (omega arith)
]

same_kernel : (o : Option ℕ) (c d : ℕ) → o ≡ some c → o ≡ some d → c ≡ d
same_kernel o c d e e' = ap (λ (x : Option ℕ). elim x [ none ↦ 0 | some i ↦ i ]) (sym e ∙ e')

-- The first scan's kernel comes next.
same-IsNext :
    (h b : Bytes) (s : KernelState) (c k : ℕ)
    → s.current_kernel ≡ some c
    → SameFound b s.current_priority (c + 1) (number_of_entries h - (c + 1)) (some k)
    → IsNext h b s (record s { current_kernel = some k }) (some k)
same-IsNext h b s c k e (l, m, boots, same, before) = (
  omega arith,
  boots,
  inr (c, e, omega arith, same),
  same,
  λ j j_lt boots' pos after. elim after [
    | inl lower ↦ inr (inl lower)
    | inr (d, e', lt, eq) ↦
        let c_d = same_kernel s.current_kernel c d e e' in
        let not_before = λ (j_k : j < k). before j (omega arith) j_k boots' eq in
        elim (compare_with j k) [
          | inl j_k ↦ absurd (not_before j_k)
          | inr (inl j_is) ↦ inl j_is
          | inr (inr k_j) ↦ inr (inr (k, refl, k_j, eq))
        ]
  ],
)

-- Without one, the second scan's does.
Best-IsNext :
    (h b : Bytes) (s : KernelState) (kernel : Option ℕ) (prio : ℕ)
    → ((c j : ℕ)
        → s.current_kernel ≡ some c
        → c < j
        → j < number_of_entries h
        → is_bootable b j ≡ true
        → get_entry_priority b j ≢ s.current_priority)
    → Best b s.current_priority (number_of_entries h) kernel prio
    → IsNext h b s (record { current_kernel = kernel; current_priority = prio }) kernel
Best-IsNext h b s none prio nothing (zero_prio, all) = λ j j_lt boots pos after. elim after [
  | inl lower ↦ omega (arith, all j j_lt boots lower)
  | inr (c, e, lt, eq) ↦ nothing c j e lt j_lt boots eq
]
Best-IsNext h b s (some k) prio nothing (l, boots, same, below, all) = (
  l,
  boots,
  inl (rw same below),
  same,
  λ j j_lt boots' pos after. elim after [
    | inl lower ↦
        let (at_most, strictly) = all j j_lt boots' lower in
        elim (compare_with j k) [
          | inl j_k ↦ inr (inl (strictly j_k))
          | inr (inl j_is) ↦ inl j_is
          | inr (inr k_j) ↦ same_or_lower b j k prio at_most k_j
        ]
    | inr (c, e, lt, eq) ↦ absurd (nothing c j e lt j_lt boots' eq)
  ],
)

-- What the first scan leaves to the second.
scan_same-none :
    (h b : Bytes) (s : KernelState) (c j : ℕ)
    → scan_same h b s ≡ none
    → s.current_kernel ≡ some c
    → c < j
    → j < number_of_entries h
    → is_bootable b j ≡ true
    → get_entry_priority b j ≢ s.current_priority
scan_same-none h b s c j none_found e lt j_lt boots =
    subst (SameFound b s.current_priority (c + 1) (number_of_entries h - (c + 1))) none_found
      (scan_same-SameFound h b s c e) j (omega arith) (omega arith) boots

choose-IsNext :
    (h b : Bytes) (s : KernelState) (found : Option ℕ)
    → scan_same h b s ≡ found
    → (let t = choose h b s found in IsNext h b s t t.current_kernel)
unfolding choose
choose-IsNext h b s none e =
    Best-IsNext h b s _ _ (λ c j. scan_same-none h b s c j e)
      (lower_priority-Best b s.current_priority (number_of_entries h) 0 (number_of_entries h) none 0
        (omega arith) (refl, λ j l. absurd (omega arith)))
choose-IsNext h b s (some k) e = elim (Option-cases s.current_kernel) [
  | inl no_kernel ↦ none_some k (sym (scan_same-no_kernel h b s no_kernel) ∙ e)
  | inr (c, current) ↦ same-IsNext h b s c k current (
      subst (SameFound b s.current_priority (c + 1) (number_of_entries h - (c + 1))) e
        (scan_same-SameFound h b s c current))
]

-- A call gives the next kernel: bootable, and first among those that come after the state before;
-- each other bootable kernel of a priority above 0 that came after the state before comes after the
-- state left behind. It fails only when no such kernel is left.
pub gpt_next_kernel_entry-IsNext :
    (h b : Bytes) (s : KernelState)
    → (let t = (gpt_next_kernel_entry h b s).0 in IsNext h b s t t.current_kernel)
unfolding gpt_next_kernel_entry
gpt_next_kernel_entry-IsNext h b s = choose-IsNext h b s (scan_same h b s) refl

-- ===== src/Gpt/Tries.antt =====
-- A kernel that never boots runs out of tries.
use futility.Prelude.{ℕ, zero, suc, ◌-◌, ◌≤◌, ◌≡◌, refl, arith, Bool, false}
use futility.Prelude.Memory.{Bytes}
use futility.Gpt.Entry.{get_entry_successful, get_entry_tries}
use futility.Gpt.Kernel.{is_bootable}
use futility.Gpt.Setters.{get_entry_tries_lem}
use futility.Gpt.Update.{UpdateType, entry_try, update_entry}
use futility.Gpt.Updated.{Attributes, Updates, try_booted, try_counts, try_last}
use futility.Gpt.Updated.{bad_booted, bad_dies, resets, invalidates, update_entry-Outcome}

-- `n` tries of the kernel at `i`, one in each boot, none of which marks it as successful.
unfoldable pub try_times : ℕ → Bytes → ℕ → Bytes
try_times zero b i = b
try_times (suc n) b i = try_times n (update_entry entry_try b i).0 i

-- A try takes one of the tries off a kernel that was never successful.
abbrev OneLess : Attributes → Attributes → Type 0
OneLess a a' = a.successful ≡ 0 → (a'.successful ≡ 0) × (a'.tries ≤ a.tries - 1)

try-OneLess :
    {t : UpdateType} {a a' : Attributes} {modified : Bool}
    → Updates t a a' modified
    → t ≡ entry_try
    → OneLess a a'
try-OneLess (try_booted a booted) e = λ failed. absurd (booted failed)
try-OneLess (try_counts a failed more) e = λ f. (failed, omega arith)
try-OneLess (try_last a failed last) e = λ f. (omega arith, omega arith)
try-OneLess (bad_booted a booted) e = cc
try-OneLess (bad_dies a failed) e = cc
try-OneLess (resets a) e = cc
try-OneLess (invalidates a) e = cc

try_times-tries :
    (n : ℕ) (b : Bytes) (i : ℕ)
    → get_entry_successful b i ≡ 0
    → get_entry_tries b i ≤ n
    → (get_entry_successful (try_times n b i) i ≡ 0) × (get_entry_tries (try_times n b i) i ≡ 0)
unfolding try_times
try_times-tries zero b i failed few = (failed, omega arith)
try_times-tries (suc n) b i failed few =
    let (failed', fewer) = try-OneLess (update_entry-Outcome entry_try b i).0 refl failed in
    try_times-tries n (update_entry entry_try b i).0 i failed' (omega arith)

not_bootable :
    (b : Bytes) (i : ℕ)
    → get_entry_successful b i ≡ 0
    → get_entry_tries b i ≡ 0
    → is_bootable b i ≡ false
unfolding is_bootable
not_bootable b i failed none_left = ground arith

-- A kernel that is not marked as successful is no longer bootable after fifteen tries, however many
-- tries its attributes allow.
pub try_times-not_bootable :
    (b : Bytes) (i : ℕ) → get_entry_successful b i ≡ 0 → is_bootable (try_times 15 b i) i ≡ false
try_times-not_bootable b i failed =
    let (failed', none_left) =
      try_times-tries 15 b i failed (omega (arith, get_entry_tries_lem b i)) in
    not_bootable (try_times 15 b i) i failed' none_left

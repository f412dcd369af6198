-- ===== src/Prelude/Text.antt =====
-- The bytes of an ASCII text.
use Prim.Native.Nat.{ℕ}
use Prim.Native.Char.{code}
use Prim.Native.String.{String}
use mathlib.Core.List.{List, [], ◌∷◌}
use mathlib.Core.Option.{Option, none, some}
use mathlib.Core.Bool.{Bool, true, false}
use futility.Prelude.Tests.{◌==◌, if◌then◌else◌}

abbrev pub codes : String → List ℕ
codes String.[] = []
codes (String.◌∷◌ c s) = code c ∷ codes s

-- `strchr(a, ':')`, and the cut that a zero byte there makes: what stands before it and behind it.
unfoldable pub cut_at_colon : List ℕ → Option (List ℕ × List ℕ)
cut_at_colon [] = none
cut_at_colon (c ∷ a) =
    let rest = cut_at_colon a in
    if c == b':'
    then some ([], a)
    else elim rest [ none ↦ none | some (name, file) ↦ some (c ∷ name, file) ]

-- The parts of `NAME:file`, neither of them empty.
abbrev pub named_parts : List ℕ × List ℕ → Option (List ℕ × List ℕ)
named_parts ([], f) = none
named_parts (a ∷ name, []) = none
named_parts (a ∷ name, c ∷ f) = some (a ∷ name, c ∷ f)

-- `!strcmp(s, t)`
unfoldable pub same_text : List ℕ → List ℕ → Bool
same_text [] [] = true
same_text [] (d ∷ t) = false
same_text (c ∷ s) [] = false
same_text (c ∷ s) (d ∷ t) = if c == d then same_text s t else false

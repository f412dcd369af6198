-- ===== src/DumpFmap/Tests.antt =====
-- A flash map with an area in an area, and a duplicate.
use futility.Prelude.{
  ℕ, zero, suc, ◌+◌, ◌^◌, ◌<◌, true, false, none, some, List, [], ◌∷◌, ◌≡◌, ◌≢◌, ◌↔◌, refl, arith,
  length, Option,
}
use futility.Prelude.Memory.{Bytes, IsBytes, le32, put16, put32, put_all, put_text}
use futility.Prelude.Text.{codes}
use mathlib.Core.List.{Perm}
use futility.Fmap.Defs.{fmap_nareas, area_at}
use futility.Prelude.Memory.{text_at}
use futility.DumpFmap.Nodes.{Node, area_node, area_nodes, root_node, overlaps, encloses, duplicates}
use futility.DumpFmap.Coalesce.{absorb, coalesce, all_names, own_names, coalesce-Perm}
use futility.DumpFmap.Distinct.{count_duplicates, AtMost, coalesce-AtMost}
use futility.DumpFmap.Sort.{sweep, sort_from, sort_nodes, IsFalling, sort_nodes-IsFalling}
use futility.DumpFmap.Parent.{at, find_parent, find_parents, parents, Smallest}
use futility.DumpFmap.Clashes.{Clash, parents_iff, parents-Smallest}
use futility.DumpFmap.Tree.{AreRegions, Disjoint, siblings-Disjoint}
use futility.DumpFmap.Show.{
  region, duplicate, gap, success, add_children, children, show_each, show, human_fmap, own_lines,
}
use futility.DumpFmap.Whole.{AreAreas, shown_nodes, AtMost-distinct, human_fmap-some}
use futility.DumpFmap.Shown.{Within}
use futility.DumpFmap.Output.{human_fmap-Within}

-- The areas are 16 to 80 and twice 16 to 32, of a flash of 256 bytes.
abbrev flash : Bytes
unfolding put32
flash =
    put_text
      (put_text
        (put_text
          (put16
            (put_all (λ _. 0)
              ((82, 256)
                ∷ (120, 16)
                ∷ (124, 64)
                ∷ (162, 16)
                ∷ (166, 16)
                ∷ (204, 16)
                ∷ (208, 16)
                ∷ []))
            118 3)
          128 (codes "RW"))
        170 (codes "A"))
      212 (codes "B")

human_fmap_test :
    human_fmap 4 1 true flash 64
    ≡ some (
        success
          (region 0 (codes "-entire flash-") 0 256 256
            ∷ gap 0 80 256 (codes "-entire flash-")
            ∷ region 1 (codes "RW") 16 80 64
            ∷ gap 1 32 80 (codes "RW")
            ∷ region 2 (codes "A") 16 32 16
            ∷ duplicate 2 (codes "B") 16 32 16
            ∷ gap 0 0 16 (codes "-entire flash-")
            ∷ [])
          false)
unfolding human_fmap show show_each children add_children sort_nodes sort_from sweep coalesce absorb
    parents find_parents find_parent area_nodes area_node text_at root_node overlaps encloses
    duplicates put32
human_fmap_test = refl

flash-IsBytes : IsBytes flash
unfolding put32
flash-IsBytes i = ground arith

flash-inside :
    (i : ℕ)
    → i < fmap_nareas flash 64
    → le32 flash (area_at 64 i) + le32 flash (area_at 64 i + 4) < 2 ^ 32
unfolding put32
flash-inside zero l = omega arith
flash-inside (suc zero) l = omega arith
flash-inside (suc (suc zero)) l = omega arith
flash-inside (suc (suc (suc i))) l = absurd (omega arith)

flash-AreAreas : AreAreas flash 64
unfolding put32 area_nodes area_node count_duplicates duplicates
flash-AreAreas = record { inside = flash-inside; pairs = omega arith }

human_fmap-some_example : human_fmap (suc (2 ^ 32)) 1 true flash 64 ≢ none
human_fmap-some_example =
    human_fmap-some flash 64 (2 ^ 32) 1 true flash-IsBytes flash-AreAreas (omega arith)

two_shown : 1 < length (shown_nodes flash 64)
unfolding shown_nodes coalesce absorb area_nodes area_node duplicates put32
two_shown = omega arith

human_fmap-Within_example :
    (indent : ℕ) × Within (own_lines indent (at (shown_nodes flash 64) (root_node flash 64) 1)) (
      region 0 (codes "-entire flash-") 0 256 256
      ∷ gap 0 80 256 (codes "-entire flash-")
      ∷ region 1 (codes "RW") 16 80 64
      ∷ gap 1 32 80 (codes "RW")
      ∷ region 2 (codes "A") 16 32 16
      ∷ duplicate 2 (codes "B") 16 32 16
      ∷ gap 0 0 16 (codes "-entire flash-")
      ∷ [])
human_fmap-Within_example =
    human_fmap-Within flash 64 4 1 true _ false 1 flash-IsBytes flash-AreAreas human_fmap_test
      two_shown

-- Three nodes, the last in the one before it.
abbrev room : ℕ → ℕ → Node
room start size = record { name = []; start = start; size = size; end = start + size; alias = [] }

abbrev rooms : List Node
rooms = room 0 16 ∷ room 16 48 ∷ room 20 10 ∷ []

abbrev house : Node
house = room 0 256

rooms-parents : parents 1 rooms house ≡ some (none ∷ none ∷ some 1 ∷ [])
unfolding parents find_parents find_parent overlaps encloses
rooms-parents = refl

rooms-AtMost : AtMost 0 rooms
unfolding count_duplicates duplicates
rooms-AtMost = omega arith

rooms-AreRegions : AreRegions rooms house
rooms-AreRegions = record {
  whole = whole;
  distinct = λ i j li lj ne. AtMost-distinct rooms house i j rooms-AtMost li lj ne;
}
  where
    whole :
        (i : ℕ)
        → i < 3
        → (at rooms house i).end ≡ (at rooms house i).start + (at rooms house i).size
    whole zero l = refl
    whole (suc zero) l = refl
    whole (suc (suc zero)) l = refl
    whole (suc (suc (suc i))) l = absurd (omega arith)

siblings-Disjoint_example : Disjoint rooms house 0 1
siblings-Disjoint_example =
    siblings-Disjoint rooms house 1 _ 0 1 rooms-AreRegions (omega arith) rooms-parents (omega arith)
      (omega arith) (λ e. omega arith) refl (omega arith) (omega arith)

parents-Smallest_example : Smallest 1 rooms house 2 3 (some 1)
parents-Smallest_example = parents-Smallest 1 rooms house _ 2 rooms-parents (omega arith)

parents_iff_example :
    ((found : List (Option ℕ)) × (parents 1 rooms house ≡ some found))
    ↔ ((i j : ℕ) → i < 3 → j < 3 → ¬ Clash 1 rooms house i j)
parents_iff_example = parents_iff 1 rooms house

sort_nodes-IsFalling_example :
    Perm (sort_nodes Node.start rooms) rooms × IsFalling Node.start (sort_nodes Node.start rooms)
sort_nodes-IsFalling_example = sort_nodes-IsFalling Node.start rooms

coalesce-Perm_test :
    Perm (all_names (coalesce 3 (area_nodes flash 64 3 0))) (own_names (area_nodes flash 64 3 0))
unfolding area_nodes area_node
coalesce-Perm_test = coalesce-Perm 3 (area_nodes flash 64 3 0) (refl, (refl, (refl, tt)))

coalesce-AtMost_test : AtMost 0 (coalesce 3 (area_nodes flash 64 3 0))
unfolding area_nodes flash
coalesce-AtMost_test =
    coalesce-AtMost 3 (area_nodes flash 64 3 0) (omega arith) flash-AreAreas.pairs

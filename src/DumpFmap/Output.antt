-- ===== src/DumpFmap/Output.antt =====
-- What human_fmap prints.
use futility.Prelude.{
  ℕ, ◌^◌, ◌<◌, Bool, true, false, none, some, List, [], ◌∷◌, ◌++◌, length, ◌≡◌, refl, arith, ap,
  map, Option-cases, inl, inr, ◌∙◌,
}
use futility.Prelude.Memory.{Bytes, IsBytes}
use futility.DumpFmap.Nodes.{Node, root_node}
use futility.DumpFmap.Parent.{at, parents}
use futility.DumpFmap.Show.{
  Line, region, duplicate, gap, own_lines, print_gaps, success, show, human_fmap,
}
use futility.DumpFmap.Whole.{
  IsWhole, AreAreas, shown_nodes, shown-IsWhole, shown-AreRegions, at-All,
}
use futility.DumpFmap.Shown.{Within, show-own_lines-Within}

print_gaps-append :
    (opt_gaps : Bool) (ls ms : List Line)
    → print_gaps opt_gaps (ls ++ ms) ≡ print_gaps opt_gaps ls ++ print_gaps opt_gaps ms
print_gaps-append opt_gaps [] ms = refl
print_gaps-append opt_gaps (region i n s e z ∷ ls) ms =
    ap (λ (t : List Line). region i n s e z ∷ t) (print_gaps-append opt_gaps ls ms)
print_gaps-append opt_gaps (duplicate i n s e z ∷ ls) ms =
    ap (λ (t : List Line). duplicate i n s e z ∷ t) (print_gaps-append opt_gaps ls ms)
print_gaps-append true (gap i s e n ∷ ls) ms =
    ap (λ (t : List Line). gap i s e n ∷ t) (print_gaps-append true ls ms)
print_gaps-append false (gap i s e n ∷ ls) ms = print_gaps-append false ls ms

print_gaps-duplicates :
    (opt_gaps : Bool) (indent start end size : ℕ) (names : List (List ℕ))
    → print_gaps opt_gaps (map (λ alias. duplicate indent alias start end size) names)
      ≡ map (λ alias. duplicate indent alias start end size) names
print_gaps-duplicates opt_gaps indent start end size [] = refl
print_gaps-duplicates opt_gaps indent start end size (n ∷ names) =
    ap (λ (t : List Line). duplicate indent n start end size ∷ t)
      (print_gaps-duplicates opt_gaps indent start end size names)

print_gaps-own_lines :
    (opt_gaps : Bool) (indent : ℕ) (x : Node)
    → print_gaps opt_gaps (own_lines indent x) ≡ own_lines indent x
print_gaps-own_lines opt_gaps indent x =
    ap (λ (t : List Line). region indent x.name x.start x.end x.size ∷ t)
      (print_gaps-duplicates opt_gaps indent x.start x.end x.size x.alias)

print_gaps-Within :
    (opt_gaps : Bool) (indent : ℕ) (x : Node) (lines : List Line)
    → Within (own_lines indent x) lines
    → Within (own_lines indent x) (print_gaps opt_gaps lines)
print_gaps-Within opt_gaps indent x lines w = record {
  before = print_gaps opt_gaps w.before;
  after = print_gaps opt_gaps w.after;
  joined =
      ap (print_gaps opt_gaps) w.joined
      ∙ print_gaps-append opt_gaps w.before (own_lines indent x ++ w.after)
      ∙ ap (λ (t : List Line). print_gaps opt_gaps w.before ++ t)
          (print_gaps-append opt_gaps (own_lines indent x) w.after
            ∙ ap (λ (t : List Line). t ++ print_gaps opt_gaps w.after)
                (print_gaps-own_lines opt_gaps indent x));
}

-- Where human_fmap succeeds, it prints every node: its line, and behind it those of its duplicates.
pub human_fmap-Within :
    (b : Bytes) (fmap fuel opt_overlap : ℕ) (opt_gaps : Bool) (lines : List Line) (warning : Bool)
    (i : ℕ)
    → IsBytes b
    → AreAreas b fmap
    → human_fmap fuel opt_overlap opt_gaps b fmap ≡ some (success lines warning)
    → i < length (shown_nodes b fmap)
    → (indent : ℕ) × Within (own_lines indent (at (shown_nodes b fmap) (root_node b fmap) i)) lines
unfolding human_fmap shown_nodes
human_fmap-Within b fmap fuel opt_overlap opt_gaps lines warning i bytes h e l =
    let nodes = shown_nodes b fmap in
    let root = root_node b fmap in
    elim (Option-cases (parents opt_overlap nodes root)) [
      | inl failed ↦ absurd (ground arith)
      | inr (found, ok) ↦ elim (Option-cases (show nodes root found fuel none 0 opt_gaps)) [
        | inl stuck ↦ absurd (ground arith)
        | inr (all_lines, shown) ↦
            let printed : print_gaps opt_gaps all_lines ≡ lines = ground arith in
            let (indent, w) =
              show-own_lines-Within nodes root found (shown-AreRegions b fmap bytes h) opt_overlap
                ok fuel 0 opt_gaps all_lines shown (2 ^ 32)
                (λ j lj. (at-All IsWhole nodes root j (shown-IsWhole b fmap bytes h) lj).1) i l in
            (
              indent,
              rw (← printed) (print_gaps-Within opt_gaps indent (at nodes root i) all_lines w),
            )
      ]
    ]

-- ===== src/DumpFmap/Nodes.antt =====
-- The nodes of human_fmap, from the flash map at an offset of a buffer, and the tests of two of them.
-- `all_nodes` is the list of the areas, and the root, which follows them there, is kept apart.
use futility.Prelude.{ℕ, zero, suc, ◌+◌, ◌==◌, ◌&&◌, ltb, leb, Bool, List, [], ◌∷◌, u32}
use futility.Prelude.Memory.{Bytes, text_at, le32, le64}
use futility.Prelude.Text.{codes}
use futility.Fmap.Defs.{area_at, fmap_namelen}

-- struct node_s. The parent is found later, and kept in a list of its own.
pub record Node : Type 0 where
  pub name : List ℕ
  pub start : ℕ
  pub size : ℕ
  pub end : ℕ
  pub alias : List (List ℕ)

-- The node of the area `i`. The end is a uint32_t sum.
unfoldable pub area_node : Bytes → ℕ → ℕ → Node
area_node b fmap i =
    let ah = area_at fmap i in
    record {
      name = text_at fmap_namelen b (ah + 8);
      start = le32 b ah;
      size = le32 b (ah + 4);
      end = u32 (le32 b ah + le32 b (ah + 4));
      alias = [];
    }

-- `left` nodes, from the area `i` on.
unfoldable pub area_nodes : Bytes → ℕ → ℕ → ℕ → List Node
area_nodes b fmap zero i = []
area_nodes b fmap (suc left) i = area_node b fmap i ∷ area_nodes b fmap left (i + 1)

unfoldable pub root_node : Bytes → ℕ → Node
root_node b fmap = record {
  name = codes "-entire flash-";
  start = u32 (le64 b (fmap + 10));
  size = le32 b (fmap + 18);
  end = u32 (le64 b (fmap + 10) + le32 b (fmap + 18));
  alias = [];
}

unfoldable pub overlaps : Node → Node → Bool
overlaps a b = ltb a.start b.start && ltb b.start a.end && ltb b.start a.end && ltb a.end b.end

unfoldable pub encloses : Node → Node → Bool
encloses a b = leb a.start b.start && leb b.end a.end

unfoldable pub duplicates : Node → Node → Bool
duplicates a b = (a.start == b.start) && (a.end == b.end)

-- ===== src/Traversal/Tests.antt =====
-- A traversal whose callbacks note the areas that they are called for.
use futility.Prelude.{ℕ, arith, Option, some, List, [], ◌∷◌}
use futility.Prelude.Memory.{Bytes}
use futility.FileType.{FileType, unknown, gbb}
use futility.Traversal.Defs.{op_show, cb_begin_traversal, Callback, Area, TraverseState, whole}
use futility.Traversal.Defs.{futil_traverse}
use futility.Traversal.Bounds.{InFile, Keeps, HandlerKeeps, KeptBy, futil_traverse-KeptBy}

abbrev AllInFile : List Area → Type 0
AllInFile [] = Unit {0}
AllInFile (area ∷ areas) = InFile 240 area × AllInFile areas

abbrev noting : Callback → TraverseState (List Area) → TraverseState (List Area) × ℕ
noting callback s = (record s { user = s.cb_area s.component ∷ s.user }, 0)

noting-HandlerKeeps : HandlerKeeps noting 240 AllInFile
noting-HandlerKeeps callback s keeps in_file = ((in_file, keeps.0), keeps.1)

abbrev always_gbb : Bytes → ℕ → Option FileType
always_gbb b len = some gbb

abbrev start : TraverseState (List Area)
start = record {
  op = op_show;
  component = cb_begin_traversal;
  name = [];
  cb_area = λ c. whole 0;
  in_type = unknown;
  errors = 0;
  file = λ i. 0;
  user = [];
}

start-Keeps : Keeps noting 240 AllInFile start
start-Keeps = (tt, λ i. omega arith)

futil_traverse-KeptBy_example :
    KeptBy noting 240 AllInFile noting-HandlerKeeps
      (futil_traverse noting always_gbb 240 start unknown)
futil_traverse-KeptBy_example =
    futil_traverse-KeptBy noting 240 AllInFile noting-HandlerKeeps always_gbb start unknown
      start-Keeps

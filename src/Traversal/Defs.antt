-- ===== src/Traversal/Defs.antt =====
-- futil_traverse and what it calls. The mapped file is part of the state, since callbacks and
-- fmap_limit_area write to it. The callbacks themselves, of src/cmd_show.c and src/cmd_sign.c, are
-- the parameter `handler`; `U` is what they keep in variables of their own.
use futility.Prelude.{ℕ, ◌+◌, ◌==◌, ltb, ◌||◌, Option, none, some, List, [], ◌∷◌}
use futility.Prelude.{if◌then◌else◌, u32, bit_or}
use futility.Prelude.Memory.{Bytes, le32, put32}
use futility.Prelude.Text.{codes}
use futility.Fmap.Defs.{fmap_find, fmap_find_by_name}
use futility.FileType.{FileType, unknown, pubkey, keyblock, fw_preamble, gbb, bios_image}
use futility.FileType.{old_bios_image, kern_preamble, raw_firmware, raw_kernel, chromiumos_disk}
use futility.FileType.{privkey}

-- enum futil_op_type; `invalid_op` is a value that is none of it.
pub data Op : Type 0 where
  op_show op_sign invalid_op : Op

-- enum futil_cb_component
pub data Component : Type 0 where
  cb_begin_traversal cb_end_traversal cb_fmap_gbb cb_fmap_vblock_a cb_fmap_vblock_b : Component
  cb_fmap_fw_main_a cb_fmap_fw_main_b cb_pubkey cb_keyblock cb_gbb cb_fw_preamble : Component
  cb_kern_preamble cb_raw_firmware cb_raw_kernel cb_privkey : Component

abbrev pub index : Component → ℕ
index cb_begin_traversal = 0
index cb_end_traversal = 1
index cb_fmap_gbb = 2
index cb_fmap_vblock_a = 3
index cb_fmap_vblock_b = 4
index cb_fmap_fw_main_a = 5
index cb_fmap_fw_main_b = 6
index cb_pubkey = 7
index cb_keyblock = 8
index cb_gbb = 9
index cb_fw_preamble = 10
index cb_kern_preamble = 11
index cb_raw_firmware = 12
index cb_raw_kernel = 13
index cb_privkey = 14

-- The functions that the tables name.
pub data Callback : Type 0 where
  show_begin show_gbb show_fw_preamble show_fw_main show_pubkey show_keyblock : Callback
  show_kernel_preamble show_privkey sign_begin sign_end sign_fw_vblock sign_fw_main : Callback
  sign_pubkey resign_kernel_part sign_raw_firmware create_kernel_part : Callback

-- cb_show_funcs, cb_sign_funcs and cb_func.
abbrev pub cb_func : Op → Component → Option Callback
cb_func op_show cb_begin_traversal = some show_begin
cb_func op_show cb_fmap_gbb = some show_gbb
cb_func op_show cb_fmap_vblock_a = some show_fw_preamble
cb_func op_show cb_fmap_vblock_b = some show_fw_preamble
cb_func op_show cb_fmap_fw_main_a = some show_fw_main
cb_func op_show cb_fmap_fw_main_b = some show_fw_main
cb_func op_show cb_pubkey = some show_pubkey
cb_func op_show cb_keyblock = some show_keyblock
cb_func op_show cb_gbb = some show_gbb
cb_func op_show cb_fw_preamble = some show_fw_preamble
cb_func op_show cb_kern_preamble = some show_kernel_preamble
cb_func op_show cb_privkey = some show_privkey
cb_func op_sign cb_begin_traversal = some sign_begin
cb_func op_sign cb_end_traversal = some sign_end
cb_func op_sign cb_fmap_vblock_a = some sign_fw_vblock
cb_func op_sign cb_fmap_vblock_b = some sign_fw_vblock
cb_func op_sign cb_fmap_fw_main_a = some sign_fw_main
cb_func op_sign cb_fmap_fw_main_b = some sign_fw_main
cb_func op_sign cb_pubkey = some sign_pubkey
cb_func op_sign cb_kern_preamble = some resign_kernel_part
cb_func op_sign cb_raw_firmware = some sign_raw_firmware
cb_func op_sign cb_raw_kernel = some create_kernel_part
cb_func _ _ = none

-- The table direct_callback. The entries with component 0 are those of types that the switch of
-- futil_traverse takes before it looks here.
abbrev pub direct_callback : FileType → Component × List ℕ
direct_callback unknown = (cb_begin_traversal, [])
direct_callback pubkey = (cb_pubkey, codes "VbPublicKey")
direct_callback keyblock = (cb_keyblock, codes "VbKeyBlock")
direct_callback fw_preamble = (cb_fw_preamble, codes "FW Preamble")
direct_callback gbb = (cb_gbb, codes "GBB")
direct_callback bios_image = (cb_begin_traversal, [])
direct_callback old_bios_image = (cb_begin_traversal, [])
direct_callback kern_preamble = (cb_kern_preamble, codes "Kernel Preamble")
direct_callback raw_firmware = (cb_raw_firmware, codes "raw firmware")
direct_callback raw_kernel = (cb_raw_kernel, codes "raw kernel")
direct_callback chromiumos_disk = (cb_begin_traversal, codes "chromiumos disk")
direct_callback privkey = (cb_privkey, codes "VbPrivateKey")

abbrev pub BiosArea : Type 0
BiosArea = List ℕ × Component

abbrev pub bios_area : List BiosArea
bios_area =
    (codes "GBB", cb_fmap_gbb)
    ∷ (codes "FW_MAIN_A", cb_fmap_fw_main_a)
    ∷ (codes "FW_MAIN_B", cb_fmap_fw_main_b)
    ∷ (codes "VBLOCK_A", cb_fmap_vblock_a)
    ∷ (codes "VBLOCK_B", cb_fmap_vblock_b)
    ∷ []

abbrev pub old_bios_area : List BiosArea
old_bios_area =
    (codes "GBB Area", cb_fmap_gbb)
    ∷ (codes "Firmware A Data", cb_fmap_fw_main_a)
    ∷ (codes "Firmware B Data", cb_fmap_fw_main_b)
    ∷ (codes "Firmware A Key", cb_fmap_vblock_a)
    ∷ (codes "Firmware B Key", cb_fmap_vblock_b)
    ∷ []

-- struct cb_area_s. `buf` is an offset in the mapped file.
pub record Area : Type 0 where
  pub offset : ℕ
  pub buf : ℕ
  pub len : ℕ

-- struct futil_traverse_state_s, with the mapped file. `my_area` is `&cb_area[component]`.
pub record TraverseState (U : Type 0) : Type 0 where
  pub op : Op
  pub component : Component
  pub name : List ℕ
  pub cb_area : Component → Area
  pub in_type : FileType
  pub errors : ℕ
  pub file : Bytes
  pub user : U

-- fmap_limit_area on the area header at `ah`; it writes to the mapped file.
unfoldable pub fmap_limit_area : Bytes → ℕ → ℕ → Bytes
fmap_limit_area b ah len =
    let sum = u32 (le32 b ah + le32 b (ah + 4)) in
    if ltb sum (le32 b (ah + 4)) || ltb len sum then put32 (put32 b ah 0) (ah + 4) 0 else b

-- `*ah_ptr` after a search: as it was, where the search fails.
abbrev pub found_or : Option ℕ → Option ℕ → Option ℕ
found_or (some found) ah = some found
found_or none ah = ah

-- The whole file.
abbrev pub whole : ℕ → Area
whole len = record { offset = 0; buf = 0; len = len }

module _ {U : Type 0} where
  -- What invoke_callback stores before the call.
  abbrev pub prepare : TraverseState U → Component → List ℕ → Area → TraverseState U
  prepare s c name area = record s {
    component = c;
    name = name;
    cb_area = λ d. if index d == index c then area else s.cb_area d;
  }

module _ {U : Type 0} (handler : Callback → TraverseState U → TraverseState U × ℕ) where
  unfoldable pub invoke_callback : TraverseState U → Component → List ℕ → Area → TraverseState U × ℕ
  invoke_callback s c name area =
      let s' = prepare s c name area in
      elim (cb_func s'.op c) [ some callback ↦ handler callback s' | none ↦ (s', 0) ]

  -- `retval |= invoke_callback(...); state->errors = retval;`
  unfoldable pub invoke_and_note :
      TraverseState U → ℕ → Component → List ℕ → Area → TraverseState U × ℕ
  invoke_and_note s retval c name area =
      let (s', r) = invoke_callback s c name area in
      let retval' = bit_or retval r in (record s' { errors = retval' }, retval')

  -- The body of the loops, for the area header at `ah`.
  unfoldable pub visit_area : ℕ → ℕ → List ℕ → Component → TraverseState U → ℕ → TraverseState U × ℕ
  visit_area len ah name c s retval =
      let file = fmap_limit_area s.file ah len in
      let at = le32 file ah in
      let area : Area = record { offset = at; buf = at; len = le32 file (ah + 4) } in
      let limited : TraverseState U = record s { file = file } in
      invoke_and_note limited retval c name area

  -- The loop over the areas of a BIOS image, with the area header of the round before. `none` is
  -- the use of a NULL area header.
  unfoldable pub traverse_areas :
      ℕ → Option ℕ → List BiosArea → Option ℕ → TraverseState U → ℕ → Option (TraverseState U × ℕ)
  traverse_areas len fmap [] ah s retval = some (s, retval)
  traverse_areas len fmap ((name, c) ∷ areas) ah s retval =
      elim (found_or (fmap_find_by_name s.file len fmap name) ah) [
        | none ↦ none
        | some found ↦
            let (s', retval') = visit_area len found name c s retval in
            traverse_areas len fmap areas (some found) s' retval'
      ]

  -- The cases of a BIOS image.
  unfoldable pub traverse_bios :
      ℕ → List BiosArea → TraverseState U → ℕ → Option (TraverseState U × ℕ)
  traverse_bios len areas s retval = traverse_areas len (fmap_find s.file len) areas none s retval

  -- The switch of futil_traverse.
  unfoldable pub traverse_type : ℕ → FileType → TraverseState U → ℕ → Option (TraverseState U × ℕ)
  traverse_type len bios_image s retval = traverse_bios len bios_area s retval
  traverse_type len old_bios_image s retval = traverse_bios len old_bios_area s retval
  traverse_type len unknown s retval = some (s, retval)
  traverse_type len chromiumos_disk s retval = some (s, retval)
  traverse_type len type s retval =
      let (c, name) = direct_callback type in some (invoke_and_note s retval c name (whole len))

  -- futil_traverse once the type is known. The last callback's result is returned, and not noted.
  unfoldable pub traverse_known : ℕ → FileType → TraverseState U → Option (TraverseState U × ℕ)
  traverse_known len type s =
      let noted : TraverseState U = record s { in_type = type; errors = 0 } in
      let (begun, retval) =
        invoke_and_note noted 0 cb_begin_traversal (codes "<begin>") (whole len) in
      elim (traverse_type len type begun retval) [
        | none ↦ none
        | some (s', retval') ↦
            let (ended, r) = invoke_callback s' cb_end_traversal (codes "<end>") (whole len) in
            some (ended, bit_or retval' r)
      ]

  -- futil_traverse. `recognize` is futil_file_type_buf, which is undefined for some buffers.
  module _ (recognize : Bytes → ℕ → Option FileType) where
    unfoldable pub traverse_hint : ℕ → TraverseState U → FileType → Option (TraverseState U × ℕ)
    traverse_hint len s unknown = elim (recognize s.file len) [
      | none ↦ none
      | some type ↦ traverse_known len type s
    ]
    traverse_hint len s hint = traverse_known len hint s

    unfoldable pub traverse_op : Op → ℕ → TraverseState U → FileType → Option (TraverseState U × ℕ)
    traverse_op invalid_op len s hint = some (s, 1)
    traverse_op _ len s hint = traverse_hint len s hint

    unfoldable pub futil_traverse : ℕ → TraverseState U → FileType → Option (TraverseState U × ℕ)
    futil_traverse len s hint = traverse_op s.op len s hint

-- ===== src/Traversal/Bounds.antt =====
-- The areas that callbacks are given lie in the mapped file.
use futility.Prelude.{ℕ, ◌+◌, ◌≤◌, ◌≡◌, refl, arith, Option, none, some, List, [], ◌∷◌}
use futility.Prelude.{inl, inr, Option-cases, bit_or}
use futility.Prelude.Memory.{
  put32-IsBytes, Bytes, IsBytes, le32, le32-lt, put32, le32-put32, le32-put32_ne,
}
use futility.Prelude.Text.{codes}
use futility.Fmap.Defs.{fmap_find_by_name}
use futility.FileType.{FileType, unknown, bios_image, old_bios_image, chromiumos_disk}
use futility.Traversal.Defs.{Op, invalid_op, Component, cb_begin_traversal, cb_end_traversal}
use futility.Traversal.Defs.{Callback, cb_func, direct_callback, BiosArea, bios_area}
use futility.Traversal.Defs.{old_bios_area, Area, TraverseState, fmap_limit_area, prepare}
use futility.Traversal.Defs.{
  invoke_callback, invoke_and_note, traverse_areas, traverse_bios, visit_area,
}
use futility.Traversal.Defs.{
  traverse_type, traverse_known, traverse_hint, traverse_op, futil_traverse,
}
use futility.Traversal.Defs.{found_or, whole}

abbrev pub InFile : ℕ → Area → Type 0
InFile len area = (area.buf ≡ area.offset) × (area.offset + area.len ≤ len)

-- fmap_limit_area leaves an area header whose area lies in the file.
pub fmap_limit_area-InFile :
    (b : Bytes) (ah len : ℕ)
    → IsBytes b
    → le32 (fmap_limit_area b ah len) ah + le32 (fmap_limit_area b ah len) (ah + 4) ≤ len
unfolding fmap_limit_area
fmap_limit_area-InFile b ah len bytes = ground (
  arith,
  le32-lt b ah bytes,
  le32-lt b (ah + 4) bytes,
  le32-put32 b ah 0,
  le32-put32 (put32 b ah 0) (ah + 4) 0,
  le32-put32_ne (put32 b ah 0) (ah + 4) 0 ah,
)

fmap_limit_area-IsBytes : (b : Bytes) (ah len : ℕ) → IsBytes b → IsBytes (fmap_limit_area b ah len)
unfolding fmap_limit_area
fmap_limit_area-IsBytes b ah len h i =
    let cleared = put32-IsBytes _ (ah + 4) 0 (put32-IsBytes b ah 0 h) in
    ground (arith, h i, cleared i)

module _ {U : Type 0} (handler : Callback → TraverseState U → TraverseState U × ℕ) (len : ℕ)
    (P : U → Type 0) where
  -- What the callbacks keep is `P`, and the file holds bytes.
  abbrev pub Keeps : TraverseState U → Type 0
  Keeps s = P s.user × IsBytes s.file

  -- Each callback keeps it, if the area that it is called for lies in the file.
  abbrev pub HandlerKeeps : Type 0
  HandlerKeeps =
      (callback : Callback) (s : TraverseState U)
      → Keeps s
      → InFile len (s.cb_area s.component)
      → Keeps (handler callback s).0

  module _ (keeps : HandlerKeeps) where
    invoke_callback-Keeps :
        (s : TraverseState U) (c : Component) (name : List ℕ) (area : Area)
        → Keeps s
        → InFile len area
        → Keeps (invoke_callback handler s c name area).0
    unfolding invoke_callback
    invoke_callback-Keeps s c name area k inside = elim (Option-cases (cb_func s.op c)) [
      | inl e ↦ rw (e, invoke_callback) k
      | inr (callback, e) ↦
          rw (e, invoke_callback)
            (keeps callback (prepare s c name area) k (ground (arith, inside)))
    ]

    invoke_and_note-Keeps :
        (s : TraverseState U) (retval : ℕ) (c : Component) (name : List ℕ) (area : Area)
        → Keeps s
        → InFile len area
        → Keeps (invoke_and_note handler s retval c name area).0
    unfolding invoke_and_note
    invoke_and_note-Keeps s retval c name area k inside =
        invoke_callback-Keeps s c name area k inside

    visit_area-Keeps :
        (ah : ℕ) (name : List ℕ) (c : Component) (s : TraverseState U) (retval : ℕ)
        → Keeps s
        → Keeps (visit_area handler len ah name c s retval).0
    unfolding visit_area
    visit_area-Keeps ah name c s retval k =
        invoke_and_note-Keeps _ retval c name _ (k.0, fmap_limit_area-IsBytes s.file ah len k.1)
          (refl, fmap_limit_area-InFile s.file ah len k.1)

    whole-InFile : InFile len (whole len)
    whole-InFile = omega arith

    -- Nothing is claimed of a run that C leaves undefined.
    abbrev pub KeptBy : Option (TraverseState U × ℕ) → Type 0
    KeptBy none = Unit {0}
    KeptBy (some (s, _)) = Keeps s

    traverse_areas-KeptBy :
        (fmap : Option ℕ) (areas : List BiosArea) (ah : Option ℕ) (s : TraverseState U) (retval : ℕ)
        → Keeps s
        → KeptBy (traverse_areas handler len fmap areas ah s retval)
    unfolding traverse_areas
    traverse_areas-KeptBy fmap [] ah s retval k = k
    traverse_areas-KeptBy fmap ((name, c) ∷ areas) ah s retval k =
        elim (Option-cases (found_or (fmap_find_by_name s.file len fmap name) ah)) [
          | inl e ↦ rw (e, traverse_areas) tt
          | inr (found, e) ↦
              let visited = visit_area-Keeps found name c s retval k in
              rw (e, traverse_areas) (traverse_areas-KeptBy fmap areas (some found) _ _ visited)
        ]

    traverse_type-KeptBy :
        (type : FileType) (s : TraverseState U) (retval : ℕ)
        → Keeps s
        → KeptBy (traverse_type handler len type s retval)
    unfolding traverse_type traverse_bios
    traverse_type-KeptBy bios_image s retval k = traverse_areas-KeptBy _ bios_area none s retval k
    traverse_type-KeptBy old_bios_image s retval k =
        traverse_areas-KeptBy _ old_bios_area none s retval k
    traverse_type-KeptBy unknown s retval k = k
    traverse_type-KeptBy chromiumos_disk s retval k = k
    traverse_type-KeptBy type s retval k =
        invoke_and_note-Keeps s retval (direct_callback type).0 (direct_callback type).1 (whole len)
          k whole-InFile

    KeptBy-then :
        (r : Option (TraverseState U × ℕ)) (f : TraverseState U × ℕ → Option (TraverseState U × ℕ))
        → KeptBy r
        → ((s : TraverseState U) (n : ℕ) → Keeps s → KeptBy (f (s, n)))
        → KeptBy (elim r [ none ↦ none | some x ↦ f x ])
    KeptBy-then none f k h = tt
    KeptBy-then (some (s, n)) f k h = h s n k

    traverse_known-KeptBy :
        (type : FileType) (s : TraverseState U)
        → Keeps s
        → KeptBy (traverse_known handler len type s)
    unfolding traverse_known
    traverse_known-KeptBy type s k =
        let noted : TraverseState U = record s { in_type = type; errors = 0 } in
        let begin = codes "<begin>" in
        let begun = invoke_and_note handler noted 0 cb_begin_traversal begin (whole len) in
        let begun_keeps =
          invoke_and_note-Keeps noted 0 cb_begin_traversal begin (whole len) k whole-InFile in
        KeptBy-then (traverse_type handler len type begun.0 begun.1)
          (λ r.
            let (ended, n) =
              invoke_callback handler r.0 cb_end_traversal (codes "<end>") (whole len) in
            some (ended, bit_or r.1 n))
          (traverse_type-KeptBy type begun.0 begun.1 begun_keeps)
          (λ s' n k'.
            invoke_callback-Keeps s' cb_end_traversal (codes "<end>") (whole len) k' whole-InFile)

    module _ (recognize : Bytes → ℕ → Option FileType) where
      recognized-KeptBy :
          (type : Option FileType) (s : TraverseState U)
          → Keeps s
          → KeptBy (elim type [ none ↦ none | some type ↦ traverse_known handler len type s ])
      recognized-KeptBy none s k = tt
      recognized-KeptBy (some type) s k = traverse_known-KeptBy type s k

      traverse_hint-KeptBy :
          (s : TraverseState U) (hint : FileType)
          → Keeps s
          → KeptBy (traverse_hint handler recognize len s hint)
      unfolding traverse_hint
      traverse_hint-KeptBy s unknown k = recognized-KeptBy (recognize s.file len) s k
      traverse_hint-KeptBy s hint k = traverse_known-KeptBy hint s k

      traverse_op-KeptBy :
          (op : Op) (s : TraverseState U) (hint : FileType)
          → Keeps s
          → KeptBy (traverse_op handler recognize op len s hint)
      unfolding traverse_op
      traverse_op-KeptBy invalid_op s hint k = k
      traverse_op-KeptBy op s hint k = traverse_hint-KeptBy s hint k

      -- Every callback of a traversal is called for an area that lies in the mapped file: what
      -- holds of the callbacks' variables, and is kept by each callback that is so called, holds
      -- at the end of a traversal that C defines.
      pub futil_traverse-KeptBy :
          (s : TraverseState U) (hint : FileType)
          → Keeps s
          → KeptBy (futil_traverse handler recognize len s hint)
      unfolding futil_traverse
      futil_traverse-KeptBy s hint k = traverse_op-KeptBy s.op s hint k

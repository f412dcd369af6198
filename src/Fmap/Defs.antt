-- ===== src/Fmap/Defs.antt =====
-- fmap.c over a buffer of bytes. FmapHeader is 56 bytes, packed: signature, major version at 8,
-- base at 10, size at 18, name at 22, number of areas at 54. FmapAreaHeader is 42 bytes: offset,
-- size at 4, name at 8, flags at 40.
use futility.Prelude.{ℕ, zero, suc, ◌+◌, ◌-◌, ◌*◌, ltb, ◌==◌, Bool, false}
use futility.Prelude.{Option, none, some, List, [], ◌∷◌, if◌then◌else◌}
use futility.Prelude.Memory.{Bytes, le16, memcmp_eq, strncmp_eq}
use futility.Fmap.Search.{grow, descend}

-- "__FMAP__"
abbrev pub fmap_signature : List ℕ
fmap_signature = b'_' ∷ b'_' ∷ b'F' ∷ b'M' ∷ b'A' ∷ b'P' ∷ b'_' ∷ b'_' ∷ []

abbrev pub header_size : ℕ
header_size = 56

abbrev pub area_header_size : ℕ
area_header_size = 42

abbrev pub fmap_namelen : ℕ
fmap_namelen = 32

unfoldable pub is_fmap : Bytes → ℕ → Bool
is_fmap b o = if memcmp_eq b o fmap_signature then b (o + 8) == 1 else false

-- The offset of the header. `lim` is signed in C: it is negative where the buffer is too short.
unfoldable pub fmap_find : Bytes → ℕ → Option ℕ
fmap_find b size =
    if ltb size header_size
    then none
    else let lim = size - header_size in
      if is_fmap b 0
      then some 0
      else let align = grow (suc lim) lim 4 in descend (is_fmap b) lim align align

abbrev pub fmap_nareas : Bytes → ℕ → ℕ
fmap_nareas b fmap = le16 b (fmap + 54)

-- `ah + i`, the area header number `i`.
abbrev pub area_at : ℕ → ℕ → ℕ
area_at fmap i = fmap + header_size + i * area_header_size

-- The loop of fmap_find_by_name from area `i`, with `left` areas to go.
unfoldable pub find_area : Bytes → ℕ → List ℕ → ℕ → ℕ → Option ℕ
find_area b fmap name zero i = none
find_area b fmap name (suc left) i =
    if strncmp_eq fmap_namelen b (area_at fmap i + 8) name
    then some (area_at fmap i)
    else find_area b fmap name left (i + 1)

-- fmap_find_by_name: the area header stored through `ah_ptr`. The pointer that the function
-- returns is `ptr + area_offset` of that header, or NULL.
unfoldable pub fmap_find_by_name : Bytes → ℕ → Option ℕ → List ℕ → Option ℕ
fmap_find_by_name b size fmap name =
    let found : Option ℕ = elim fmap [ some f ↦ some f | none ↦ fmap_find b size ] in
    elim found [ none ↦ none | some f ↦ find_area b f name (fmap_nareas b f) 0 ]

-- ===== src/LoadFmap/Loop.antt =====
-- When an area is loaded, and what it holds then.
use futility.Prelude.{
  ℕ, ◌+◌, ◌<◌, ◌≡◌, arith, Bool, true, some, List, length, ◌∙◌, ◌↔◌, option_cases, option_some, ap,
}
use futility.Prelude.Memory.{Bytes, le32, bytes_at, bytes_at-put_text}
use futility.Fmap.Defs.{fmap_find_by_name}
use futility.LoadFmap.Defs.{Files, split_arg, copy_to_area, load_area}

-- The argument names an area of the map and a file that opens, gives bytes, and closes.
pub record Loads (files : Files) (b : Bytes) (len fmap : ℕ) (arg : List ℕ) (b' : Bytes)
    : Type 0 where
  pub name : List ℕ
  pub file : List ℕ
  pub ah : ℕ
  pub text : List ℕ
  pub split : split_arg arg ≡ some (name, file)
  pub found : fmap_find_by_name b len (some fmap) name ≡ some ah
  pub read : files file (le32 b (ah + 4)) ≡ some (text, true)
  pub some_text : 0 < length text
  pub copied : bytes_at (length text) b' (le32 b ah) ≡ text

-- A round of load_fmap succeeds exactly for an argument with the name of an area and that of a file
-- that opens, from which some bytes are read, and which closes; the area begins with those bytes then.
pub load_area_iff :
    (files : Files) (b : Bytes) (len fmap : ℕ) (arg : List ℕ)
    → ((load_area files b len fmap arg).1 ≡ true)
      ↔ Loads files b len fmap arg (load_area files b len fmap arg).0
unfolding load_area copy_to_area
load_area_iff files b len fmap arg = (to, from)
  where
    Result : Bytes × Bool → Type 0
    Result r = r.1 ≡ true → Loads files b len fmap arg r.0

    to : Result (load_area files b len fmap arg)
    to =
        option_cases Result (split_arg arg) (λ e h. cc)
          (λ (name, file) split.
            option_cases Result (fmap_find_by_name b len (some fmap) name) (λ e h. cc)
              (λ ah found.
                option_cases Result (files file (le32 b (ah + 4))) (λ e h. cc)
                  (λ (text, closed) read h. record {
                    name = name;
                    file = file;
                    ah = ah;
                    text = text;
                    split = split;
                    found = found;
                    read = read ∙ ap (λ (c : Bool). some (text, c)) (ground arith);
                    some_text = ground arith;
                    copied = bytes_at-put_text b (le32 b ah) text;
                  })))

    from :
        Loads files b len fmap arg (load_area files b len fmap arg).0
        → (load_area files b len fmap arg).1 ≡ true
    from l =
        ap (λ (r : Bytes × Bool). r.1)
          (option_some _ _ l.split ∙ option_some _ _ l.found ∙ option_some _ _ l.read)
        ∙ ground (arith, l.some_text)

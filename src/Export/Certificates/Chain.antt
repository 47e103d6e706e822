-- ===== src/Export/Certificates/Chain.antt =====
-- What certificates the server is given, out of the paths in the flag.
use text.Mathlib.TextLemmas
use snap_plugin_lib_cpp.Base.{
  ◌≡◌, refl, ap, sym, ◌∙◌, ◌⊎◌, inl, inr, Bool, true, false, none, some, List, [], ◌∷◌, map, String,
  ◌<>◌, if◌then◌else◌, arith,
}
use snap_plugin_lib_cpp.Export.Certificates.{
  Files, Load, loaded, throws, has_directory_bit, has_regular_bit, load_key, load_directory_loop,
  load_directory, load_path, load_tls_ca_loop, need, load_tls_ca,
}

-- A text before what was loaded.
plus : String → Load → Load
plus ret (loaded s) = loaded (ret <> s)
plus ret (throws e) = throws e

-- All the texts, up to the first exception.
pub chain : List Load → Load
unfolding plus
chain [] = loaded ""
chain (loaded s ∷ more) = plus s (chain more)
chain (throws e ∷ more) = throws e

abbrev pub files : List (String × Bool) → List String
files [] = []
files ((path, regular) ∷ paths) = if regular then path ∷ files paths else files paths

-- An exception counts as nothing.
abbrev pub forgive : Load → Load
forgive (loaded s) = loaded s
forgive (throws e) = loaded ""

pub Load-cases : (l : Load) → ((s : String) × (l ≡ loaded s)) ⊎ ((e : String) × (l ≡ throws e))
Load-cases (loaded s) = inl (s, refl)
Load-cases (throws e) = inr (e, refl)

plus-plus : (a b : String) (l : Load) → plus (a <> b) l ≡ plus a (plus b l)
unfolding plus
plus-plus a b (loaded s) = ap loaded (TextLemmas.append_assoc a b s)
plus-plus a b (throws e) = refl

plus-empty : (l : Load) → plus "" l ≡ l
unfolding plus
plus-empty (loaded s) = ap loaded (TextLemmas.nil-append s)
plus-empty (throws e) = refl

module _ (fs : Files) where
  open fs use {contents, stat, is_directory, entries, split}

  -- What a path adds to the certificates.
  pub contribution : String → Load
  contribution path = elim (stat path) [
    | none ↦ loaded ""
    | some mode ↦
        if has_directory_bit mode
        then (if is_directory path
            then chain (map (load_key fs) (files (entries path)))
            else loaded "")
        else if has_regular_bit mode
        then forgive (load_key fs path)
        else loaded ""
  ]

  load_directory_loop_lem :
      (paths : List (String × Bool)) (ret : String)
      → (load_directory_loop fs paths ret).0 ≡ plus ret (chain (map (load_key fs) (files paths)))
  unfolding load_directory_loop chain plus
  load_directory_loop_lem [] ret = ap loaded (sym (TextLemmas.append-nil ret))
  load_directory_loop_lem ((path, false) ∷ paths) ret = load_directory_loop_lem paths ret
  load_directory_loop_lem ((path, true) ∷ paths) ret = elim (Load-cases (load_key fs path)) [
    | inl (s, e) ↦
        rw (e, load_directory_loop)
          (load_directory_loop_lem paths (ret <> s)
            ∙ plus-plus ret s (chain (map (load_key fs) (files paths))))
    | inr (x, e) ↦ rw (e, load_directory_loop) refl
  ]

  load_path_lem : (path : String) → (load_path fs path).0 ≡ contribution path
  unfolding load_path load_directory contribution
  load_path_lem path = ground (
    arith,
    load_directory_loop_lem (entries path) "",
    plus-empty (chain (map (load_key fs) (files (entries path)))),
  )

  load_tls_ca_loop_lem :
      (paths : List String) (ret : String)
      → (load_tls_ca_loop fs paths ret).0 ≡ plus ret (chain (map contribution paths))
  unfolding load_tls_ca_loop chain plus
  load_tls_ca_loop_lem [] ret = ap loaded (sym (TextLemmas.append-nil ret))
  load_tls_ca_loop_lem (path ∷ paths) ret = elim (Load-cases (contribution path)) [
    | inl (s, e) ↦
        rw (load_path_lem path ∙ e, e, load_tls_ca_loop)
          (load_tls_ca_loop_lem paths (ret <> s) ∙ plus-plus ret s (chain (map contribution paths)))
    | inr (x, e) ↦ rw (load_path_lem path ∙ e, e, load_tls_ca_loop) refl
  ]

  -- The certificates are the contents of the keys, in the order of the paths and, in a directory, of
  -- its regular files; a regular file without content adds nothing when it is listed itself, while in
  -- a directory its exception ends the loading. If nothing is found the loading fails.
  pub load_tls_ca_lem :
      (paths : String) → (load_tls_ca fs paths).0 ≡ need fs (chain (map contribution (split paths)))
  unfolding load_tls_ca
  load_tls_ca_lem paths = ap (need fs) (load_tls_ca_loop_lem (split paths) "" ∙ plus-empty _)

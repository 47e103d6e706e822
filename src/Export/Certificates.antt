-- ===== src/Export/Certificates.antt =====
-- The loading of the TLS keys and certificates in src/snap/grpc_export.cc. The file system and
-- `boost::split` are the record Files. What is logged is part of the result.
pub mod Chain
use snap_plugin_lib_cpp.Base.{
  text_empty, ℕ, ◌/◌, ◌%◌, ◌^◌, ◌≡◌, refl, ap, sym, ◌∙◌, Bool, true, false, Option, none, some,
  List, [], ◌∷◌, ◌++◌, String, ◌<>◌, ◌==◌, if◌then◌else◌, arith, append_assoc,
}

pub record Files : Type 0 where
  -- what can be read of the file; `none`: it cannot be opened
  pub contents : String → Option String
  -- `stat` and the `st_mode` that it finds; `none`: it fails
  pub stat : String → Option ℕ
  pub is_directory : String → Bool
  -- the paths in a directory, and whether each is a regular file
  pub entries : String → List (String × Bool)
  -- `boost::split` at the colons
  pub split : String → List String

-- A text, or a PluginException with its message.
pub data Load : Type 0 where
  loaded : String → Load
  throws : String → Load

-- `mode & S_IFDIR` and `mode & S_IFREG`: one bit each
abbrev pub has_directory_bit : ℕ → Bool
has_directory_bit mode = (mode / 2 ^ 14) % 2 == 1

abbrev pub has_regular_bit : ℕ → Bool
has_regular_bit mode = (mode / 2 ^ 15) % 2 == 1

abbrev pub key_error : String → String
key_error path = "TLS Cert or Key at " <> (path <> " does not exist or is empty.\n")

abbrev pub no_certificates : String
no_certificates = "found no useable certificates in given locations\n"

module _ (fs : Files) where
  open fs use {contents, stat, is_directory, entries, split}

  unfoldable pub file_exists : String → Bool
  file_exists path = elim (contents path) [ none ↦ false | some s ↦ true ]

  unfoldable pub read_file : String → String
  read_file path = elim (contents path) [ none ↦ "" | some s ↦ s ]

  unfoldable pub read_if_exists : String → String
  unfolding file_exists read_file
  read_if_exists path = if file_exists path then read_file path else ""

  unfoldable pub load_key : String → Load
  unfolding read_if_exists
  load_key path =
      let ret = read_if_exists path in
      if text_empty ret then throws (key_error path) else loaded ret

  -- The loop over a directory: the text so far, and what is logged.
  load_directory_loop : List (String × Bool) → String → Load × List String
  unfolding load_key
  load_directory_loop [] ret = (loaded ret, [])
  load_directory_loop ((path, regular) ∷ paths) ret =
      let skipped = load_directory_loop paths ret in
      let more : Load × List String = elim (load_key path) [
        | loaded s ↦ load_directory_loop paths (ret <> s)
        | throws e ↦ (throws e, [])
      ] in
      if regular
      then more
      else (skipped.0, ("path found in folder, not a file: " <> (path <> "\n")) ∷ skipped.1)

  unfoldable pub load_directory : String → Load × List String
  unfolding load_directory_loop
  load_directory path =
      let all_ = load_directory_loop (entries path) "" in
      if is_directory path then all_ else (loaded "", [])

  -- What one of the paths adds: an exception of `load_key` is caught in the branch of a regular file,
  -- and not in that of a directory.
  load_path : String → Load × List String
  unfolding load_directory load_key
  load_path path = elim (stat path) [
    | none ↦ (
      loaded "",
      ("provided path does not resolve to a file or directory: " <> (path <> "\n")) ∷ [],
    )
    | some mode ↦
        if has_directory_bit mode
        then load_directory path
        else if has_regular_bit mode
        then elim (load_key path) as (λ _. Load × List String) [
          | loaded s ↦ (loaded s, [])
          | throws e ↦ (loaded "", e ∷ [])
        ]
        else (loaded "", ("provided path is not a file or directory: " <> (path <> "\n")) ∷ [])
  ]

  load_tls_ca_loop : List String → String → Load × List String
  unfolding load_path
  load_tls_ca_loop [] ret = (loaded ret, [])
  load_tls_ca_loop (path ∷ paths) ret = elim (load_path path).0 [
    | loaded s ↦
        let rest = load_tls_ca_loop paths (ret <> s) in (rest.0, (load_path path).1 ++ rest.1)
    | throws e ↦ (throws e, (load_path path).1)
  ]

  -- The check after the loop.
  abbrev pub need : Load → Load
  need (loaded s) = if text_empty s then throws no_certificates else loaded s
  need (throws e) = throws e

  unfoldable pub load_tls_ca : String → Load × List String
  unfolding load_tls_ca_loop
  load_tls_ca paths = let all_ = load_tls_ca_loop (split paths) "" in (need all_.0, all_.1)

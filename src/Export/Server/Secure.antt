-- ===== src/Export/Server/Secure.antt =====
-- The credentials of the server that is started, and what the preamble says of them.
use snap_plugin_lib_cpp.Base.{
  ◌≡◌, ◌⊎◌, inl, inr, refl, ◌∙◌, Bool, true, false, some, String, ◌<>◌, text_empty, if◌then◌else◌,
  arith, Option-cases, Bool-cases,
}
use snap_plugin_lib_cpp.Base.Int.{ℤ}
use snap_plugin_lib_cpp.Plugin.{PluginType, Meta}
use snap_plugin_lib_cpp.Export.Certificates.{
  Files, Load, loaded, throws, key_error, file_exists, read_file, read_if_exists, load_key,
  load_tls_ca, need,
}
use snap_plugin_lib_cpp.Export.Certificates.Chain.{Load-cases}
use snap_plugin_lib_cpp.Export.Server.{
  Credentials, insecure, ssl, Secured, secured, fails, configure_credentials, Exported,
  listening_address, service_of, print_preamble, prints, serves, do_export,
}

-- The content of the file, which is not empty.
abbrev pub IsContent : Files → String → String → Type 0
IsContent fs path s = (fs.contents path ≡ some s) × (text_empty s ≡ false)

-- The credentials that the meta data ask for.
pub data IsAsked (fs : Files) (m : Meta) : Credentials → Type 0 where
  plain : m.tls_enabled ≡ false → IsAsked fs m insecure
  tls :
      (key crt ca : String)
      → m.tls_enabled ≡ true
      → IsContent fs m.tls_certificate_key_path key
      → IsContent fs m.tls_certificate_crt_path crt
      → (load_tls_ca fs m.tls_certificate_authority_paths).0 ≡ loaded ca
      → text_empty ca ≡ false
      → IsAsked fs m (ssl key crt ca)

abbrev pub is_ssl : Credentials → Bool
is_ssl insecure = false
is_ssl (ssl key crt ca) = true

pub IsAsked-is_ssl :
    {fs : Files} {m : Meta} (c : Credentials) → IsAsked fs m c → m.tls_enabled ≡ is_ssl c
IsAsked-is_ssl _ (plain off) = off
IsAsked-is_ssl _ (tls key crt ca on k r a n) = on

Secured-cases :
    (s : Secured) → ((c : Credentials) × (s ≡ secured c)) ⊎ ((e : String) × (s ≡ fails e))
Secured-cases (secured c) = inl (c, refl)
Secured-cases (fails e) = inr (e, refl)

load_key-IsContent :
    (fs : Files) (path s : String) → load_key fs path ≡ loaded s → IsContent fs path s
unfolding load_key read_if_exists file_exists read_file
load_key-IsContent fs path s e = elim (Option-cases (fs.contents path)) [
  | inl gone ↦
      let q : load_key fs path ≡ throws (key_error path) =
        rw (gone, load_key, read_if_exists, file_exists, read_file) refl in
      absurd (cc)
  | inr (t, here) ↦
      let q : load_key fs path ≡ (if text_empty t then throws (key_error path) else loaded t) =
        rw (here, load_key, read_if_exists, file_exists, read_file) refl in
      ground arith
]

need-loaded : (fs : Files) (l : Load) (s : String) → need fs l ≡ loaded s → text_empty s ≡ false
need-loaded fs (loaded t) s e = ground arith
need-loaded fs (throws x) s e = absurd (cc)

load_tls_ca-nonempty :
    (fs : Files) (paths s : String) → (load_tls_ca fs paths).0 ≡ loaded s → text_empty s ≡ false
unfolding load_tls_ca
load_tls_ca-nonempty fs paths s e = need-loaded fs _ s e

configure_credentials-IsAsked :
    (fs : Files) (m : Meta) (c : Credentials)
    → (configure_credentials fs m).0 ≡ secured c
    → IsAsked fs m c
unfolding configure_credentials
configure_credentials-IsAsked fs m c e = elim (Bool-cases m.tls_enabled) [
  | inr off ↦ let p : c ≡ insecure = ground arith in rw p (plain off)
  | inl on ↦ elim (Load-cases (load_key fs m.tls_certificate_key_path)) [
    | inr (x, k) ↦ absurd (ground arith)
    | inl (key, k) ↦ elim (Load-cases (load_key fs m.tls_certificate_crt_path)) [
      | inr (x, r) ↦ absurd (ground arith)
      | inl (crt, r) ↦ elim (Load-cases (load_tls_ca fs m.tls_certificate_authority_paths).0) [
        | inr (x, a) ↦ absurd (ground arith)
        | inl (ca, a) ↦
            let p : c ≡ ssl key crt ca = ground arith in
            rw p (
              tls key crt ca on (load_key-IsContent fs _ key k) (load_key-IsContent fs _ crt r) a
                (load_tls_ca-nonempty fs _ ca a))
      ]
    ]
  ]
]

-- If the export ends without an exception, the server has the credentials that the meta data ask
-- for: with TLS a key and a certificate that are the contents of their files and not empty, and root
-- certificates that were found; without TLS none. The preamble says whether TLS is on, and the port
-- in its address is the one that the server got for the address and the credentials.
pub do_export_lem :
    (fs : Files) (bind : String → Credentials → ℤ) (to_string : ℤ → String)
    (plugin_type : PluginType) (m : Meta) (x : Exported)
    → do_export fs bind to_string plugin_type m ≡ some x
    → IsAsked fs m x.credentials
      × (x.preamble.tls_enabled ≡ is_ssl x.credentials)
      × (x.preamble.listen_address
          ≡ m.listen_addr <> (":" <> to_string (bind (listening_address m) x.credentials)))
unfolding do_export
do_export_lem fs bind to_string plugin_type m x e =
    elim (Secured-cases (configure_credentials fs m).0) [
      | inr (y, failed) ↦ absurd (ground arith)
      | inl (c, got) ↦
          let same : x.credentials ≡ c = ground arith in
          let asked : IsAsked fs m x.credentials =
            rw same (configure_credentials-IsAsked fs m c got) in
          (asked, ground arith ∙ IsAsked-is_ssl x.credentials asked, ground arith)
    ]

-- The address and the service of an export that ends.
pub do_export-serves :
    (fs : Files) (bind : String → Credentials → ℤ) (to_string : ℤ → String)
    (plugin_type : PluginType) (m : Meta) (x : Exported)
    → do_export fs bind to_string plugin_type m ≡ some x
    → (x.address ≡ listening_address m) × (x.service ≡ service_of plugin_type)
unfolding do_export
do_export-serves fs bind to_string plugin_type m x e =
    elim (Secured-cases (configure_credentials fs m).0) [
      | inr (y, failed) ↦ absurd (ground arith)
      | inl (c, got) ↦ (ground arith, ground arith)
    ]

-- What is announced of an export that ends.
pub do_export-announces :
    (fs : Files) (bind : String → Credentials → ℤ) (to_string : ℤ → String)
    (plugin_type : PluginType) (m : Meta) (x : Exported)
    → do_export fs bind to_string plugin_type m ≡ some x
    → (x.preamble ≡ print_preamble to_string m x.port)
      × (x.port ≡ bind x.address x.credentials)
      × (x.announcement ≡ (if m.stand_alone then serves m.stand_alone_port else prints))
unfolding do_export
do_export-announces fs bind to_string plugin_type m x e =
    elim (Secured-cases (configure_credentials fs m).0) [
      | inr (y, failed) ↦ absurd (ground arith)
      | inl (c, got) ↦ (ground arith, ground arith, ground arith)
    ]

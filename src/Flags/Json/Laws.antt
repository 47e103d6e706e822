-- ===== src/Flags/Json/Laws.antt =====
-- Termination of the flag parser, the size of its new argument vector, and what it drops.
use snap_plugin_lib_cpp.Base.{
  ℕ, zero, suc, ◌+◌, ◌-◌, ◌*◌, ◌<◌, ◌≡◌, ◌≢◌, ◌⊎◌, inl, inr, refl, ap, ◌∙◌, true, false, Option,
  none, some, List, [], ◌∷◌, ◌++◌, append-nil, append_assoc, length, length-append, String, ◌<>◌,
  All, arith, Option-cases,
}
use snap_plugin_lib_cpp.Flags.{Flags}
use snap_plugin_lib_cpp.Flags.Json.{
  Libraries, is_flag, listed, Parsed, returned, exits, not_flags, erase_listed, remove_unused_flags,
  generate_command_line_from_json, new_argv, parsejson_flags, parse_plainly, after_json,
  parse_command_line_flags, parse_flags,
}

module _ (lib : Libraries) where
  open lib use {Json, parse, items, is_false}

  length-generate :
      (members : List (String × Json))
      → length (generate_command_line_from_json lib members) ≡ 2 * length members
  unfolding generate_command_line_from_json
  length-generate [] = refl
  length-generate ((key, value) ∷ members) = omega (arith, length-generate members)

  -- The new vector is filled exactly: it has `argc + (jsonArgs.size() * 2) - 1` entries, the size that
  -- is allocated for it.
  length-new_argv :
      (program arg : String) (rest : List String) (members : List (String × Json))
      → length (new_argv lib program rest members)
        ≡ length (program ∷ arg ∷ rest) + length members * 2 - 1
  unfolding new_argv
  length-new_argv program arg rest members = omega (
    arith,
    length-append rest (generate_command_line_from_json lib members),
    length-generate members,
  )

  abbrev pub IsKept : String × Json → Type 0
  IsKept (key, value) = (is_flag key ≡ true) × (is_false value ≡ false)

  not_flags-covers :
      (names : List String) (members : List (String × Json))
      → ((k : String) → listed k (not_flags lib members) ≡ true → listed k names ≡ true)
      → All (λ m. (listed m.0 names ≡ true) ⊎ IsKept m) members
  unfolding not_flags listed
  not_flags-covers names [] h = tt
  not_flags-covers names ((key, value) ∷ members) h =
      (ground (arith, h key), not_flags-covers names members (λ k e. h k (ground (arith, e))))

  erase_listed-IsKept :
      (names : List String) (members : List (String × Json))
      → All (λ m. (listed m.0 names ≡ true) ⊎ IsKept m) members
      → All IsKept (erase_listed lib names members)
  unfolding erase_listed
  erase_listed-IsKept names [] h = tt
  erase_listed-IsKept names ((key, value) ∷ members) h =
      ground (arith, erase_listed-IsKept names members h.1)

  -- Every member that is left has a key that the library knows, and is not the Boolean false.
  remove_unused_flags-IsKept :
      (members : List (String × Json)) → All IsKept (remove_unused_flags lib members)
  unfolding remove_unused_flags
  remove_unused_flags-IsKept members =
      erase_listed-IsKept _ members (not_flags-covers (not_flags lib members) members (λ k e. e))

  -- No argument, or one that begins with two dashes first.
  data Dashed : List String → Type 0 where
    nothing : Dashed []
    dashes : (s : String) (more : List String) → Dashed (("--" <> s) ∷ more)

  Dashed-append :
      (gen : List String) (members : List (String × Json))
      → Dashed gen
      → Dashed (gen ++ generate_command_line_from_json lib members)
  unfolding generate_command_line_from_json
  Dashed-append _ [] nothing = nothing
  Dashed-append _ ((key, value) ∷ members) nothing = dashes _ _
  Dashed-append _ members (dashes s more) = dashes s _

  after_json-ne-none :
      (argv : List String) (f : Flags) (o : Option (Option Parsed))
      → o ≢ some none
      → after_json lib argv f o ≢ none
  unfolding after_json
  after_json-ne-none argv f none h = λ e. cc
  after_json-ne-none argv f (some none) h = absurd (h refl)
  after_json-ne-none argv f (some (some (exits g))) h = λ e. cc
  after_json-ne-none argv f (some (some (returned zero g))) h = λ e. cc
  after_json-ne-none argv f (some (some (returned (suc n) g))) h = λ e. cc

  parsejson_flags-ne-none :
      (parse_command_line : List String → Flags → Option Parsed) (program arg : String)
      (rest : List String) (f : Flags)
      → (parse arg ≡ none)
        ⊎ ((members : List (String × Json))
            → parse_command_line (new_argv lib program rest members) f ≢ none)
      → parsejson_flags lib parse_command_line (program ∷ arg ∷ rest) f ≢ some none
  unfolding parsejson_flags
  parsejson_flags-ne-none call program arg rest f h = elim (Option-cases (parse arg)) [
    | inl bad ↦ rw (bad, parsejson_flags) (λ e. cc)
    | inr (j, good) ↦ elim h [
      | inl bad ↦ absurd (cc)
      | inr deeper ↦ elim (Option-cases (items j)) [
        | inl odd ↦ rw (good, odd, parsejson_flags) (λ e. cc)
        | inr (members, even) ↦
            rw (good, even, parsejson_flags)
              (λ e. deeper (remove_unused_flags lib members) (ground arith))
      ]
    ]
  ]

  new_argv-append :
      (program : String) (own gen : List String) (members : List (String × Json))
      → new_argv lib program (own ++ gen) members
        ≡ program ∷ (own ++ (gen ++ generate_command_line_from_json lib members))
  unfolding new_argv
  new_argv-append program own gen members =
      ap (λ args. program ∷ args)
        (append_assoc own gen (generate_command_line_from_json lib members))

  module _ (no_dash : (s : String) → parse ("--" <> s) ≡ none) where
    parse_command_line_flags-ne-none :
        (fuel : ℕ) (program : String) (own gen : List String) (f : Flags)
        → Dashed gen
        → length own < fuel
        → parse_command_line_flags lib fuel (program ∷ (own ++ gen)) f ≢ none
    unfolding parse_command_line_flags
    parse_command_line_flags-ne-none zero program own gen f d h = absurd (omega arith)
    parse_command_line_flags-ne-none (suc fuel) program [] _ f nothing h =
        after_json-ne-none (program ∷ []) f (some (some (returned 1 f)))
          (λ (e : some (some (returned 1 f)) ≡ some none). cc)
    parse_command_line_flags-ne-none (suc fuel) program [] _ f (dashes s more) h =
        after_json-ne-none _ f _ (
          parsejson_flags-ne-none (parse_command_line_flags lib fuel) program ("--" <> s) more f
            (inl (no_dash s)))
    parse_command_line_flags-ne-none (suc fuel) program (arg ∷ own) gen f d h =
        after_json-ne-none _ f _ (
          parsejson_flags-ne-none (parse_command_line_flags lib fuel) program arg (own ++ gen) f (
            inr λ members. rw (new_argv-append program own gen members) (
              parse_command_line_flags-ne-none fuel program own
                (gen ++ generate_command_line_from_json lib members) f (Dashed-append gen members d)
                (omega arith))))

    parse_command_line_flags_all :
        (program : String) (argv : List String) (f : Flags)
        → parse_command_line_flags lib (suc (length (program ∷ argv))) (program ∷ argv) f ≢ none
    parse_command_line_flags_all program argv f = rw (append-nil argv) at (
        parse_command_line_flags-ne-none (suc (length (program ∷ argv))) program argv [] f nothing
          (omega arith))

    -- If no text that begins with two dashes is JSON, parsing the flags ends: whatever the arguments
    -- and the JSON in them, the calls are no deeper than there are arguments.
    pub parse_flags-ne-none :
        (program : String) (argv : List String) (path : String) (f : Flags)
        → parse_flags lib (program ∷ argv) path f ≢ none
    unfolding parse_flags
    parse_flags-ne-none program argv path f =
        elim (Option-cases
          (parse_command_line_flags lib (suc (length (program ∷ argv))) (program ∷ argv) f)) [
            | inl stuck ↦ absurd (parse_command_line_flags_all program argv f stuck)
            | inr (exits g, e) ↦ rw (e, parse_flags) (λ e'. cc)
            | inr (returned zero g, e) ↦ rw (e, parse_flags) (λ e'. cc)
            | inr (returned (suc n) g, e) ↦ rw (e, parse_flags) (λ e'. cc)
          ]

parse_plainly-refused :
    (lib : Libraries) (argv : List String) (f : Flags)
    → lib.store_command_line argv f.flags ≡ (f.flags, false)
    → parse_plainly lib argv f ≡ returned 1 f
unfolding parse_plainly
parse_plainly-refused lib argv f refused = rw (refused, parse_plainly) refl

parse_command_line_flags-refused :
    (lib : Libraries) (fuel : ℕ) (program arg : String) (rest : List String) (f : Flags)
    → lib.parse arg ≡ none
    → lib.store_command_line (program ∷ arg ∷ rest) f.flags ≡ (f.flags, false)
    → parse_command_line_flags lib (suc fuel) (program ∷ arg ∷ rest) f ≡ some (returned 1 f)
unfolding parse_command_line_flags parsejson_flags
parse_command_line_flags-refused lib fuel program arg rest f text refused =
    let argv = program ∷ arg ∷ rest in
    let json : parsejson_flags lib (parse_command_line_flags lib fuel) argv f
        ≡ some (some (returned 1 f)) =
      rw (text, parsejson_flags) refl in
    ap (after_json lib argv f) json ∙ ap some (parse_plainly-refused lib argv f refused)

-- A command line that is no JSON and that the store refuses leaves the flags as they were.
pub parse_flags-refused :
    (lib : Libraries) (program arg : String) (rest : List String) (path : String) (f : Flags)
    → lib.parse arg ≡ none
    → lib.store_command_line (program ∷ arg ∷ rest) f.flags ≡ (f.flags, false)
    → parse_flags lib (program ∷ arg ∷ rest) path f ≡ some (returned 1 f)
unfolding parse_flags
parse_flags-refused lib program arg rest path f text refused =
    rw
      (
        parse_command_line_flags-refused lib (length (program ∷ arg ∷ rest)) program arg rest f text
            refused,
        parse_flags,
      )
      refl

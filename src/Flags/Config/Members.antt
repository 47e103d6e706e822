-- ===== src/Flags/Config/Members.antt =====
-- What each member of the JSON becomes in the config.
use mathlib.Core.Option.{or_else}
use snap_plugin_lib_cpp.Base.{
  ◌≡◌, refl, ap, ◌∙◌, ite, Bool, Option, none, some, List, [], ◌∷◌, String, str_dec, arith,
}
use snap_plugin_lib_cpp.Base.Int.{ℤ}
use snap_plugin_lib_cpp.Base.Dict.{Dict, lookup, lookup-insert}
use snap_plugin_lib_cpp.Rpc.{ConfigMap, empty_config}
use snap_plugin_lib_cpp.Flags.{of_string, Flags}
use snap_plugin_lib_cpp.Flags.Config.{
  Scalar, json_boolean, json_number, json_string, json_other, JsonObjects, add_member, members_loop,
  config_of_value, generate_config_map_from_command_json,
}

abbrev pub boolean_of : Scalar → Option Bool
boolean_of (json_boolean b) = some b
boolean_of _ = none

abbrev pub number_of : Scalar → Option ℤ
number_of (json_number n) = some n
number_of _ = none

abbrev pub text_of : Scalar → Option String
text_of (json_string s) = some s
text_of _ = none

-- The value that the body adds under a key, before what the map held.
add_member_lem :
    (key k : String) (j : Scalar) (c : ConfigMap)
    → let d = add_member key j c in
      (lookup k d.boolmap ≡ or_else (ite (str_dec key k) (boolean_of j) none) (lookup k c.boolmap))
      × (lookup k d.intmap ≡ or_else (ite (str_dec key k) (number_of j) none) (lookup k c.intmap))
      × (lookup k d.stringmap
          ≡ or_else (ite (str_dec key k) (text_of j) none) (lookup k c.stringmap))
unfolding add_member or_else
add_member_lem key k (json_boolean b) c = ground (arith, lookup-insert key k b c.boolmap)
add_member_lem key k (json_number n) c = ground (arith, lookup-insert key k n c.intmap)
add_member_lem key k (json_string s) c = ground (arith, lookup-insert key k s c.stringmap)
add_member_lem key k json_other c = ground arith

or_else_last {ℓ} :
    {A : Type ℓ} (a b c : Option A) → or_else a (or_else b c) ≡ or_else (or_else a b) c
unfolding or_else
or_else_last none b c = refl
or_else_last (some a) b c = refl

or_else_blank {ℓ} : {A : Type ℓ} (a : Option A) → or_else a none ≡ a
unfolding or_else
or_else_blank none = refl
or_else_blank (some a) = refl

module _ (json : JsonObjects) where
  open json use {Json, parse_members, scalar}

  module _ {V : Type 0} (pick : Scalar → Option V) (k : String) where
    -- The value of the last member with the key that has the type.
    abbrev pub last_of : List (String × Json) → Option V
    last_of [] = none
    last_of ((key, j) ∷ members) =
        or_else (last_of members) (ite (str_dec key k) (pick (scalar j)) none)

    members_loop_lem :
        (part : ConfigMap → Dict V)
        → ((key : String) (j : Scalar) (c : ConfigMap)
            → lookup k (part (add_member key j c))
              ≡ or_else (ite (str_dec key k) (pick j) none) (lookup k (part c)))
        → (members : List (String × Json)) (c : ConfigMap)
        → lookup k (part (members_loop json members c))
          ≡ or_else (last_of members) (lookup k (part c))
    unfolding members_loop or_else
    members_loop_lem part step [] c = refl
    members_loop_lem part step ((key, j) ∷ members) c =
        members_loop_lem part step members (add_member key (scalar j) c)
        ∙ ap (or_else (last_of members)) (step key (scalar j) c)
        ∙ or_else_last (last_of members) (ite (str_dec key k) (pick (scalar j)) none)
            (lookup k (part c))

  -- Where the flag holds an object, its members become the config: a key has the value of the last
  -- member of that key and type in the map of the type, Boolean, number or string; members of other
  -- types are dropped.
  pub generate_config_map_from_command_json_lem :
      (f : Flags) (s : String) (members : List (String × Json)) (k : String)
      → lookup "config" f.flags ≡ some (of_string s)
      → parse_members s ≡ some members
      → (c : ConfigMap) × (generate_config_map_from_command_json json f ≡ some c)
        × (lookup k c.boolmap ≡ last_of boolean_of k members)
        × (lookup k c.intmap ≡ last_of number_of k members)
        × (lookup k c.stringmap ≡ last_of text_of k members)
  unfolding generate_config_map_from_command_json lookup
  generate_config_map_from_command_json_lem f s members k e parsed = (
    members_loop json members empty_config,
    ap (config_of_value json) e ∙ (rw (parsed, config_of_value) refl),
    members_loop_lem boolean_of k (λ c. c.boolmap) (λ key j c. (add_member_lem key k j c).0) members
          empty_config
        ∙ or_else_blank _,
    members_loop_lem number_of k (λ c. c.intmap) (λ key j c. (add_member_lem key k j c).1) members
          empty_config
        ∙ or_else_blank _,
    members_loop_lem text_of k (λ c. c.stringmap) (λ key j c. (add_member_lem key k j c).2) members
          empty_config
        ∙ or_else_blank _,
  )

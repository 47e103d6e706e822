-- ===== src/Base/Dict.antt =====
-- `std::map<std::string, V>` and `google::protobuf::Map<std::string, V>`: association lists, the
-- order of the list being the order of iteration.
use snap_plugin_lib_cpp.Base.Text.{str_dec}
use Prim.Native.String.{String}
use mathlib.Core.Path.{◌≡◌, refl}
use mathlib.Core.Logic.{ite}
use mathlib.Core.Bool.{Bool, true, false}
use mathlib.Core.Option.{Option, none, some}
use mathlib.Core.List.{List, [], ◌∷◌}
use native.Mathlib.Omega.{arith}

abbrev pub Dict {ℓ} : Type ℓ → Type ℓ
Dict V = List (String × V)

module _ {ℓ} {V : Type ℓ} where
  -- `find`, and `at` where it does not fail
  unfoldable pub lookup : String → Dict V → Option V
  lookup k [] = none
  lookup k ((j, v) ∷ m) = ite (str_dec j k) (some v) (lookup k m)

  -- `m[k] = v`
  unfoldable pub insert : String → V → Dict V → Dict V
  insert k v [] = (k, v) ∷ []
  insert k v ((j, w) ∷ m) = ite (str_dec j k) ((j, v) ∷ m) ((j, w) ∷ insert k v m)

  -- `count(k)`, which is 0 or 1
  unfoldable pub contains : String → Dict V → Bool
  contains k [] = false
  contains k ((j, v) ∷ m) = ite (str_dec j k) true (contains k m)

  pub lookup-insert :
      (k j : String) (v : V) (m : Dict V)
      → lookup j (insert k v m) ≡ ite (str_dec k j) (some v) (lookup j m)
  unfolding lookup insert
  lookup-insert k j v [] = refl
  lookup-insert k j v ((i, w) ∷ m) = ground (arith, lookup-insert k j v m)

  pub lookup-insert_self : (k : String) (v : V) (m : Dict V) → lookup k (insert k v m) ≡ some v
  lookup-insert_self k v m = ground (arith, lookup-insert k k v m)

  -- `count` is 1 exactly on the keys that `find` finds.
  pub contains-lookup :
      (k : String) (m : Dict V)
      → contains k m ≡ (elim (lookup k m) as (λ _. Bool) [ none ↦ false | some v ↦ true ])
  unfolding lookup contains
  contains-lookup k [] = refl
  contains-lookup k ((j, v) ∷ m) = ground (arith, contains-lookup k m)

  -- Only the last of two writes to a key counts.
  pub insert-insert_self :
      (k : String) (v w : V) (m : Dict V) → insert k v (insert k w m) ≡ insert k v m
  unfolding insert
  insert-insert_self k v w [] = ground arith
  insert-insert_self k v w ((j, u) ∷ m) = ground (arith, insert-insert_self k v w m)

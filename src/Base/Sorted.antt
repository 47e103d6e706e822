-- ===== src/Base/Sorted.antt =====
-- `std::map<std::string, V>(begin, end)`: the entries of a range in the ascending order of their keys; of
-- two with one key the first is kept.
use Prim.Native.Nat.{Ordering}
use Prim.Native.String.{String, compare}
use mathlib.Core.Path.{◌≡◌, refl, sym, ap, ◌∙◌}
use mathlib.Core.Logic.{ite, inl, inr}
use mathlib.Core.Bool.{true}
use mathlib.Core.Option.{Option, none, some}
use mathlib.Core.List.{[], ◌∷◌}
use native.Mathlib.Omega.{arith}
use text.Mathlib.TextEquality.{path_by_compare}
use snap_plugin_lib_cpp.Base.Tests.{if◌then◌else◌, Bool-cases}
use snap_plugin_lib_cpp.Base.Text.{str_dec}
use snap_plugin_lib_cpp.Base.Dict.{Dict, lookup, contains, contains-lookup}
use snap_plugin_lib_cpp.Base.Order.{flip, compare-flip}

-- Which of two lists: the key comes before the next one, or behind it.
abbrev choose {ℓ} : {A : Type ℓ} → Ordering → A → A → A
choose Ordering.lt a b = a
choose Ordering.eq a b = b
choose Ordering.gt a b = b

module _ {ℓ} {V : Type ℓ} where
  -- The place of a key that is not there yet.
  place : String → V → Dict V → Dict V
  place k v [] = (k, v) ∷ []
  place k v ((j, w) ∷ m) =
      let rest = place k v m in choose (compare k j) ((k, v) ∷ (j, w) ∷ m) ((j, w) ∷ rest)

  emplace : String → V → Dict V → Dict V
  unfolding place
  emplace k v m = if contains k m then m else place k v m

  insert_range : Dict V → Dict V → Dict V
  unfolding emplace
  insert_range m [] = m
  insert_range m ((k, v) ∷ range) = insert_range (emplace k v m) range

  unfoldable pub from_range : Dict V → Dict V
  unfolding insert_range
  from_range range = insert_range [] range

  abbrev or_else : Option V → Option V → Option V
  or_else none o = o
  or_else (some v) o = some v

  or_else-none : (o : Option V) → or_else o none ≡ o
  or_else-none none = refl
  or_else-none (some v) = refl

  lookup-front :
      (k x : String) (v : V) (m : Dict V)
      → lookup k m ≡ none
      → lookup x ((k, v) ∷ m) ≡ or_else (lookup x m) (ite (str_dec k x) (some v) none)
  unfolding lookup
  lookup-front k x v m h = elim (str_dec k x) [
    | yes same ↦ ground (arith, ap (λ s. lookup s m) same, h)
    | no other ↦ ground (arith, or_else-none (lookup x m))
  ]

  lookup-behind :
      (j k x : String) (v w : V) (m m' : Dict V)
      → lookup x m' ≡ or_else (lookup x m) (ite (str_dec k x) (some v) none)
      → lookup x ((j, w) ∷ m') ≡ or_else (lookup x ((j, w) ∷ m)) (ite (str_dec k x) (some v) none)
  unfolding lookup
  lookup-behind j k x v w m m' h = elim (str_dec j x) [
    | yes same ↦ ground arith
    | no other ↦ ground (arith, h)
  ]

  lookup-tail :
      (j k : String) (w : V) (m : Dict V) → lookup k ((j, w) ∷ m) ≡ none → lookup k m ≡ none
  unfolding lookup
  lookup-tail j k w m h = ground (arith, h)

  lookup-place :
      (k x : String) (v : V) (m : Dict V)
      → lookup k m ≡ none
      → lookup x (place k v m) ≡ or_else (lookup x m) (ite (str_dec k x) (some v) none)
  unfolding place lookup
  lookup-place k x v [] h = refl
  lookup-place k x v ((j, w) ∷ m) h =
      placed (compare k j) (lookup-place k x v m (lookup-tail j k w m h))
    where
      placed :
          (o : Ordering)
          → lookup x (place k v m) ≡ or_else (lookup x m) (ite (str_dec k x) (some v) none)
          → lookup x (choose o ((k, v) ∷ (j, w) ∷ m) ((j, w) ∷ place k v m))
            ≡ or_else (lookup x ((j, w) ∷ m)) (ite (str_dec k x) (some v) none)
      placed Ordering.lt ih = lookup-front k x v ((j, w) ∷ m) h
      placed Ordering.eq ih = lookup-behind j k x v w m (place k v m) ih
      placed Ordering.gt ih = lookup-behind j k x v w m (place k v m) ih

  lookup-there :
      (k x : String) (v : V) (m : Dict V)
      → contains k m ≡ true
      → lookup x m ≡ or_else (lookup x m) (ite (str_dec k x) (some v) none)
  lookup-there k x v m there = elim (str_dec k x) [
    | yes same ↦ ground (arith, contains-lookup k m, ap (λ s. lookup s m) same)
    | no other ↦ ground (arith, or_else-none (lookup x m))
  ]

  lookup-emplace :
      (k x : String) (v : V) (m : Dict V)
      → lookup x (emplace k v m) ≡ or_else (lookup x m) (ite (str_dec k x) (some v) none)
  unfolding emplace
  lookup-emplace k x v m = elim (Bool-cases (contains k m)) [
    | inl there ↦ rw there (lookup-there k x v m there)
    | inr missing ↦ rw missing (lookup-place k x v m (ground (arith, contains-lookup k m)))
  ]

  lookup-insert_range :
      (x : String) (range m : Dict V)
      → lookup x (insert_range m range) ≡ or_else (lookup x m) (lookup x range)
  unfolding insert_range lookup
  lookup-insert_range x [] m = sym (or_else-none (lookup x m))
  lookup-insert_range x ((k, v) ∷ range) m =
      ground (arith, lookup-insert_range x range (emplace k v m), lookup-emplace k x v m)

  -- The map finds what the range has.
  pub lookup-from_range :
      (x : String) (range : Dict V) → lookup x (from_range range) ≡ lookup x range
  unfolding from_range lookup
  lookup-from_range x range = lookup-insert_range x range []

  -- A key comes before the first one of a map.
  abbrev IsBelow : String → Dict V → Type 0
  IsBelow j [] = Unit {0}
  IsBelow j ((k, v) ∷ m) = compare j k ≡ Ordering.lt

  -- The keys ascend.
  abbrev pub IsAscending : Dict V → Type 0
  IsAscending [] = Unit {0}
  IsAscending ((j, w) ∷ m) = IsBelow j m × IsAscending m

  place-IsBelow :
      (j k : String) (v : V) (m : Dict V)
      → compare j k ≡ Ordering.lt
      → IsBelow j m
      → IsBelow j (place k v m)
  unfolding place
  place-IsBelow j k v [] h b = h
  place-IsBelow j k v ((i, w) ∷ m) h b = placed (compare k i)
    where
      placed : (o : Ordering) → IsBelow j (choose o ((k, v) ∷ (i, w) ∷ m) ((i, w) ∷ place k v m))
      placed Ordering.lt = h
      placed Ordering.eq = b
      placed Ordering.gt = b

  place-IsAscending :
      (k : String) (v : V) (m : Dict V)
      → lookup k m ≡ none
      → IsAscending m
      → IsAscending (place k v m)
  unfolding place lookup
  place-IsAscending k v [] n h = (tt, tt)
  place-IsAscending k v ((j, w) ∷ m) n (below, h) =
      placed (compare k j) refl (place-IsAscending k v m (lookup-tail j k w m n) h)
    where
      placed :
          (o : Ordering)
          → compare k j ≡ o
          → IsAscending (place k v m)
          → IsAscending (choose o ((k, v) ∷ (j, w) ∷ m) ((j, w) ∷ place k v m))
      placed Ordering.lt e ih = (e, (below, h))
      placed Ordering.eq e ih =
          let same : j ≡ k = sym (path_by_compare k j e) in absurd (ground (arith, n, same))
      placed Ordering.gt e ih = (place-IsBelow j k v m (compare-flip j k ∙ ap flip e) below, ih)

  emplace-IsAscending :
      (k : String) (v : V) (m : Dict V) → IsAscending m → IsAscending (emplace k v m)
  unfolding emplace
  emplace-IsAscending k v m h = elim (Bool-cases (contains k m)) [
    | inl there ↦ rw there h
    | inr missing ↦ rw missing (place-IsAscending k v m (ground (arith, contains-lookup k m)) h)
  ]

  insert_range-IsAscending : (range m : Dict V) → IsAscending m → IsAscending (insert_range m range)
  unfolding insert_range
  insert_range-IsAscending [] m h = h
  insert_range-IsAscending ((k, v) ∷ range) m h =
      insert_range-IsAscending range (emplace k v m) (emplace-IsAscending k v m h)

  pub from_range-IsAscending : (range : Dict V) → IsAscending (from_range range)
  unfolding from_range
  from_range-IsAscending range = insert_range-IsAscending range [] tt

-- ===== src/Examples/Types.antt =====
-- The types of data that the two collectors named Rando produce (examples/collector/src/rando.cc and
-- examples/streaming-collector/src/rando.cc, which declare the same). The conversions of the random
-- number that the standard library does are parameters.
use snap_plugin_lib_cpp.Base.{
  ℕ, ◌≡◌, refl, ◌%◌, true, false, Option, none, some, [], ◌∷◌, String, ◌==◌, str_eq, ◌∙◌, inl, inr,
  Option-cases, arith, if◌then◌else◌,
}
use snap_plugin_lib_cpp.Base.Int.{pos}
use snap_plugin_lib_cpp.Base.Dict.{Dict, lookup, insert, lookup-insert}
use snap_plugin_lib_cpp.Metric.Data.{
  Value, of_float, of_double, of_int32, of_int64, of_uint32, of_uint64, of_bool, of_string,
}

-- The bit patterns of the conversions to `float` and `double`, and `std::to_string`.
pub record Conversions : Type 0 where
  pub to_float : ℕ → ℕ
  pub to_double : ℕ → ℕ
  pub to_string : ℕ → String

pub data SupportedTypes : Type 0 where
  float32 float64 int32 int64 uint32 uint64 boolean string : SupportedTypes

unfoldable pub number : SupportedTypes → ℕ
number float32 = 0
number float64 = 1
number int32 = 2
number int64 = 3
number uint32 = 4
number uint64 = 5
number boolean = 6
number string = 7

-- `metric_types`, which stays mutable: `[]` adds a missing key.
unfoldable pub metric_types : Dict ℕ
unfolding number
metric_types =
    ("float32", number float32)
    ∷ ("float64", number float64)
    ∷ ("int32", number int32)
    ∷ ("int64", number int64)
    ∷ ("uint32", number uint32)
    ∷ ("uint64", number uint64)
    ∷ ("boolean", number boolean)
    ∷ ("string", number string)
    ∷ []

-- `std::map::operator[]`: a missing key is inserted with 0.
unfoldable pub index : String → Dict ℕ → ℕ × Dict ℕ
unfolding lookup insert
index k d = elim (lookup k d) [ none ↦ (0, insert k 0 d) | some n ↦ (n, d) ]

-- The argument of `set_data` that the switch selects for `random_value`; `none`: no case.
unfoldable pub random_data : Conversions → ℕ → ℕ → Option Value
unfolding number
random_data c random_value mts_type =
    if mts_type == number float32
    then some (of_float (c.to_float random_value))
    else if mts_type == number float64
    then some (of_double (c.to_double random_value))
    else if mts_type == number int32
    then some (of_int32 (pos random_value))
    else if mts_type == number int64
    then some (of_int64 (pos random_value))
    else if mts_type == number uint32
    then some (of_uint32 random_value)
    else if mts_type == number uint64
    then some (of_uint64 random_value)
    else if mts_type == number boolean
    then some (of_bool (if random_value % 2 == 0 then false else true))
    else if mts_type == number string
    then some (of_string (c.to_string random_value))
    else none

-- The value for a type's name: a name that is none of the eight means float32.
abbrev pub value_for : Conversions → ℕ → String → Value
value_for c r name =
    if str_eq "float32" name
    then of_float (c.to_float r)
    else if str_eq "float64" name
    then of_double (c.to_double r)
    else if str_eq "int32" name
    then of_int32 (pos r)
    else if str_eq "int64" name
    then of_int64 (pos r)
    else if str_eq "uint32" name
    then of_uint32 r
    else if str_eq "uint64" name
    then of_uint64 r
    else if str_eq "boolean" name
    then of_bool (if r % 2 == 0 then false else true)
    else if str_eq "string" name
    then of_string (c.to_string r)
    else of_float (c.to_float r)

-- The number that the map has for a name, or 0.
abbrev pub meaning : String → Dict ℕ → ℕ
meaning k d = elim (lookup k d) [ none ↦ 0 | some n ↦ n ]

-- The map still means what it was declared to mean.
pub IsTyping : Dict ℕ → Type 0
IsTyping d = (k : String) → meaning k d ≡ meaning k metric_types

pub metric_types-IsTyping : IsTyping metric_types
unfolding IsTyping
metric_types-IsTyping k = refl

index_lem :
    (k j : String) (d : Dict ℕ)
    → ((index k d).0 ≡ meaning k d) × (meaning j (index k d).1 ≡ meaning j d)
unfolding index
index_lem k j d = elim (Option-cases (lookup k d)) [
  | inl missing ↦ ground (arith, lookup-insert k j 0 d)
  | inr (n, found) ↦ ground arith
]

-- Reading yields the meaning of the name and keeps that of every name.
pub index-IsTyping :
    (k : String) (d : Dict ℕ)
    → IsTyping d
    → ((index k d).0 ≡ meaning k metric_types) × IsTyping (index k d).1
unfolding IsTyping
index-IsTyping k d h = ((index_lem k k d).0 ∙ h k, λ j. (index_lem k j d).1 ∙ h j)

pub random_data_lem :
    (c : Conversions) (r : ℕ) (k : String)
    → random_data c r (meaning k metric_types) ≡ some (value_for c r k)
unfolding random_data metric_types lookup
random_data_lem c r k = ground arith

-- ===== src/Metric/Data.antt =====
-- The datum of a metric: the overloads of `set_data`, `data_type` and the getters of
-- src/snap/metric.cc. A `float` or `double` is its bit pattern.
use snap_plugin_lib_cpp.Base.{ℕ, ◌≡◌, refl, Bool, false, some, String}
use snap_plugin_lib_cpp.Base.Int.{ℤ, pos}
use snap_plugin_lib_cpp.Rpc
use snap_plugin_lib_cpp.Metric.{
  Metric, DataType, string, float32, float64, int32, int64, uint32, uint64, bool, not_set, number,
  type_name, copy,
}

-- The argument of `set_data`, by the overload that takes it.
pub data Value : Type 0 where
  of_float : ℕ → Value
  of_double : ℕ → Value
  of_int32 : ℤ → Value
  of_int64 : ℤ → Value
  of_uint32 : ℕ → Value
  of_uint64 : ℕ → Value
  of_bool : Bool → Value
  of_string : String → Value

-- `type = t` and the setter of the oneof.
store : DataType → Rpc.Datum → Metric → Metric
unfolding number
store t d m = record m { type = some (number t); rpc = record m.rpc { datum = d } }

unfoldable pub set_data : Value → Metric → Metric
unfolding store
set_data (of_float v) m = store float32 (Rpc.k_float32_data v) m
set_data (of_double v) m = store float64 (Rpc.k_float64_data v) m
set_data (of_int32 v) m = store int32 (Rpc.k_int32_data v) m
set_data (of_int64 v) m = store int64 (Rpc.k_int64_data v) m
set_data (of_uint32 v) m = store uint32 (Rpc.k_uint32_data v) m
set_data (of_uint64 v) m = store uint64 (Rpc.k_uint64_data v) m
set_data (of_bool v) m = store bool (Rpc.k_bool_data v) m
set_data (of_string v) m = store string (Rpc.k_string_data v) m

unfoldable pub data_type : Metric → ℕ
unfolding Rpc.data_case
data_type m = Rpc.data_case m.rpc.datum

unfoldable pub get_int_data : Metric → ℤ
unfolding Rpc.int32_data
get_int_data m = Rpc.int32_data m.rpc.datum

unfoldable pub get_int64_data : Metric → ℤ
unfolding Rpc.int64_data
get_int64_data m = Rpc.int64_data m.rpc.datum

unfoldable pub get_uint32_data : Metric → ℕ
unfolding Rpc.uint32_data
get_uint32_data m = Rpc.uint32_data m.rpc.datum

unfoldable pub get_uint64_data : Metric → ℕ
unfolding Rpc.uint64_data
get_uint64_data m = Rpc.uint64_data m.rpc.datum

unfoldable pub get_float32_data : Metric → ℕ
unfolding Rpc.float32_data
get_float32_data m = Rpc.float32_data m.rpc.datum

unfoldable pub get_float64_data : Metric → ℕ
unfolding Rpc.float64_data
get_float64_data m = Rpc.float64_data m.rpc.datum

unfoldable pub get_bool_data : Metric → Bool
unfolding Rpc.bool_data
get_bool_data m = Rpc.bool_data m.rpc.datum

unfoldable pub get_string_data : Metric → String
unfolding Rpc.string_data
get_string_data m = Rpc.string_data m.rpc.datum

-- What the eight getters return.
pub record Readings : Type 0 where
  pub int_ : ℤ
  pub int64_ : ℤ
  pub uint32_ : ℕ
  pub uint64_ : ℕ
  pub float32_ : ℕ
  pub float64_ : ℕ
  pub bool_ : Bool
  pub string_ : String

abbrev pub readings : Metric → Readings
readings m = record {
  int_ = get_int_data m;
  int64_ = get_int64_data m;
  uint32_ = get_uint32_data m;
  uint64_ = get_uint64_data m;
  float32_ = get_float32_data m;
  float64_ = get_float64_data m;
  bool_ = get_bool_data m;
  string_ = get_string_data m;
}

abbrev pub zeros : Readings
zeros = record {
  int_ = pos 0;
  int64_ = pos 0;
  uint32_ = 0;
  uint64_ = 0;
  float32_ = 0;
  float64_ = 0;
  bool_ = false;
  string_ = "";
}

-- The value at the getter of its own type, and zero at the others.
abbrev pub only : Value → Readings
only (of_float v) = record zeros { float32_ = v }
only (of_double v) = record zeros { float64_ = v }
only (of_int32 v) = record zeros { int_ = v }
only (of_int64 v) = record zeros { int64_ = v }
only (of_uint32 v) = record zeros { uint32_ = v }
only (of_uint64 v) = record zeros { uint64_ = v }
only (of_bool v) = record zeros { bool_ = v }
only (of_string v) = record zeros { string_ = v }

abbrev pub kind : Value → DataType
kind (of_float v) = float32
kind (of_double v) = float64
kind (of_int32 v) = int32
kind (of_int64 v) = int64
kind (of_uint32 v) = uint32
kind (of_uint64 v) = uint64
kind (of_bool v) = bool
kind (of_string v) = string

abbrev pub kind_name : DataType → String
kind_name string = "string"
kind_name float32 = "float32"
kind_name float64 = "float64"
kind_name int32 = "int32"
kind_name int64 = "int64"
kind_name uint32 = "uint32"
kind_name uint64 = "uint64"
kind_name bool = "bool"
kind_name not_set = "notset"

-- After `set_data`, also after several calls with other types and after a copy of the metric, the
-- getter of the last value's type returns it, the other getters return zero, `data_type` is its
-- type, and that type prints by its name.
pub readings-set_data :
    (v : Value) (m : Metric)
    → (readings (copy (set_data v m)) ≡ only v)
      × (data_type (copy (set_data v m)) ≡ number (kind v))
      × ((set_data v m).type ≡ some (data_type (set_data v m)))
      × (type_name (data_type (set_data v m)) ≡ kind_name (kind v))
unfolding set_data data_type number type_name copy get_int_data get_int64_data get_uint32_data
    get_uint64_data get_float32_data get_float64_data get_bool_data get_string_data
readings-set_data (of_float v) m = (refl, refl, refl, refl)
readings-set_data (of_double v) m = (refl, refl, refl, refl)
readings-set_data (of_int32 v) m = (refl, refl, refl, refl)
readings-set_data (of_int64 v) m = (refl, refl, refl, refl)
readings-set_data (of_uint32 v) m = (refl, refl, refl, refl)
readings-set_data (of_uint64 v) m = (refl, refl, refl, refl)
readings-set_data (of_bool v) m = (refl, refl, refl, refl)
readings-set_data (of_string v) m = (refl, refl, refl, refl)

-- ===== src/Rpc.antt =====
-- The messages of the snap protocol as src/snap/rpc/plugin.pb.h declares them: their fields, the
-- presence of a submessage (`Option`), and the oneof that holds a metric's datum. A `float` or
-- `double` is carried as its bit pattern, since the library only stores it.
pub mod Policy
pub mod Stream
use snap_plugin_lib_cpp.Base.{ℕ, Bool, true, false, Option, none, some, List, [], String}
use snap_plugin_lib_cpp.Base.Int.{ℤ, pos}
use snap_plugin_lib_cpp.Base.Dict.{Dict}

pub record Time : Type 0 where
  pub sec : ℤ
  pub nsec : ℤ

pub record NamespaceElement : Type 0 where
  pub value : String
  pub name : String
  pub description : String

pub record ConfigMap : Type 0 where
  pub intmap : Dict ℤ
  pub stringmap : Dict String
  pub boolmap : Dict Bool

abbrev pub empty_config : ConfigMap
empty_config = record { intmap = []; stringmap = []; boolmap = [] }

-- The oneof `data`, by its cases.
pub data Datum : Type 0 where
  data_not_set : Datum
  k_string_data : String → Datum
  k_float32_data : ℕ → Datum
  k_float64_data : ℕ → Datum
  k_int32_data : ℤ → Datum
  k_int64_data : ℤ → Datum
  k_bytes_data : List ℕ → Datum
  k_bool_data : Bool → Datum
  k_uint32_data : ℕ → Datum
  k_uint64_data : ℕ → Datum

pub record Metric : Type 0 where
  pub namespace : List NamespaceElement
  pub version : ℤ
  pub config : Option ConfigMap
  pub last_advertised_time : Option Time
  pub timestamp : Option Time
  pub tags : Dict String
  pub datum : Datum
  pub unit : String
  pub description : String

-- `new rpc::Metric`
abbrev pub new_metric : Metric
new_metric = record {
  namespace = [];
  version = pos 0;
  config = none;
  last_advertised_time = none;
  timestamp = none;
  tags = [];
  datum = data_not_set;
  unit = "";
  description = "";
}

-- `enum DataCase`
unfoldable pub data_case : Datum → ℕ
data_case data_not_set = 0
data_case (k_string_data v) = 9
data_case (k_float32_data v) = 10
data_case (k_float64_data v) = 11
data_case (k_int32_data v) = 12
data_case (k_int64_data v) = 13
data_case (k_bytes_data v) = 14
data_case (k_bool_data v) = 15
data_case (k_uint32_data v) = 16
data_case (k_uint64_data v) = 17

-- A submessage that is absent reads as its default instance.
abbrev pub or_default_time : Option Time → Time
or_default_time none = record { sec = pos 0; nsec = pos 0 }
or_default_time (some t) = t

-- The getters of the oneof: the value of the case that is set, or the type's zero.
unfoldable pub string_data : Datum → String
string_data (k_string_data v) = v
string_data _ = ""

unfoldable pub float32_data : Datum → ℕ
float32_data (k_float32_data v) = v
float32_data _ = 0

unfoldable pub float64_data : Datum → ℕ
float64_data (k_float64_data v) = v
float64_data _ = 0

unfoldable pub int32_data : Datum → ℤ
int32_data (k_int32_data v) = v
int32_data _ = pos 0

unfoldable pub int64_data : Datum → ℤ
int64_data (k_int64_data v) = v
int64_data _ = pos 0

unfoldable pub bool_data : Datum → Bool
bool_data (k_bool_data v) = v
bool_data _ = false

unfoldable pub uint32_data : Datum → ℕ
uint32_data (k_uint32_data v) = v
uint32_data _ = 0

unfoldable pub uint64_data : Datum → ℕ
uint64_data (k_uint64_data v) = v
uint64_data _ = 0

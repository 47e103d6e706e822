-- ===== src/Metric/Store.antt =====
-- Who owns the message of a metric, and which ConfigMap its member `config` refers to: the
-- constructors, the destructor, `set_diagnostic_config` and `get_config` of src/snap/metric.cc over
-- a heap. The member holds a reference, taken from `rpc_metric_ptr->config()`, which names the
-- default instance of the protocol where the message has no config of its own
-- (src/snap/rpc/plugin.pb.h).
use snap_plugin_lib_cpp.Base.{
  ℕ, suc, ◌≡◌, refl, ◌≢◌, ite, Bool, true, false, Option, none, some, ℕ_discrete, arith,
  if◌then◌else◌,
}
use snap_plugin_lib_cpp.Rpc
use snap_plugin_lib_cpp.Rpc.{ConfigMap}

-- What a `ConfigMap&` names: the default instance, the config of the message at an address, or a
-- map that stands alone, such as the one of DiagnosticPrinter.
pub data ConfigRef : Type 0 where
  default_instance : ConfigRef
  config_of : ℕ → ConfigRef
  map_at : ℕ → ConfigRef

pub record Heap : Type 0 where
  pub default_config : ConfigMap
  pub messages : ℕ → Option Rpc.Metric
  pub maps : ℕ → Option ConfigMap
  -- no message stands here or above
  pub next : ℕ

pub record Object : Type 0 where
  pub rpc_metric_ptr : ℕ
  pub config : ConfigRef
  pub delete_metric_ptr : Bool

abbrev update {ℓ} : {A : Type ℓ} → (ℕ → A) → ℕ → A → ℕ → A
update f i a j = ite (ℕ_discrete i j) a (f j)

-- `new rpc::Metric`, with its content
abbrev allocate : Rpc.Metric → Heap → Heap
allocate m h = record h { messages = update h.messages h.next (some m); next = suc h.next }

-- The map that a reference names; `none` where it dangles.
unfoldable pub read : ConfigRef → Heap → Option ConfigMap
read default_instance h = some h.default_config
read (config_of p) h = elim (h.messages p) [ none ↦ none | some m ↦ m.config ]
read (map_at p) h = h.maps p

-- `rpc_map = v` through the reference.
unfoldable pub write : ConfigRef → ConfigMap → Heap → Option Heap
write default_instance v h = some (record h { default_config = v })
write (config_of p) v h = elim (h.messages p) [
  | none ↦ none
  | some m ↦
      some (record h { messages = update h.messages p (some (record m { config = some v })) })
]
write (map_at p) v h = elim (h.maps p) [
  | none ↦ none
  | some _ ↦ some (record h { maps = update h.maps p (some v) })
]

-- `rpc_metric_ptr->config()`
config_ref : ℕ → Rpc.Metric → ConfigRef
config_ref p m = elim m.config [ none ↦ default_instance | some _ ↦ config_of p ]

-- `Metric()`
unfoldable pub construct : Heap → Object × Heap
unfolding config_ref
construct h = (
  record {
    rpc_metric_ptr = h.next;
    config = config_ref h.next Rpc.new_metric;
    delete_metric_ptr = true;
  },
  allocate Rpc.new_metric h,
)

-- `Metric(rpc::Metric* metric)`
unfoldable pub wrap : ℕ → Heap → Option Object
unfolding config_ref
wrap p h = elim (h.messages p) [
  | none ↦ none
  | some m ↦
      some (record { rpc_metric_ptr = p; config = config_ref p m; delete_metric_ptr = false })
]

-- `Metric(const Metric& from)`: the message is copied, the reference of `config` too.
unfoldable pub copy : Object → Heap → Option (Object × Heap)
copy from h = elim (h.messages from.rpc_metric_ptr) [
  | none ↦ none
  | some m ↦ some (
    record { rpc_metric_ptr = h.next; config = from.config; delete_metric_ptr = true },
    allocate m h,
  )
]

-- The end of the life of a message.
unfoldable pub free : ℕ → Heap → Heap
free p h = record h { messages = update h.messages p none }

-- `~Metric()`
unfoldable pub destroy : Object → Heap → Heap
unfolding free
destroy o h = if o.delete_metric_ptr then free o.rpc_metric_ptr h else h

-- `this->config = cfg`, by `Config::operator=`: the map is copied through the reference.
unfoldable pub set_diagnostic_config : ConfigRef → Object → Heap → Option Heap
unfolding read write
set_diagnostic_config cfg o h = elim (read cfg h) [ none ↦ none | some v ↦ write o.config v h ]

-- `get_config()`, and the map that it gives access to.
unfoldable pub get_config : Object → Heap → Option ConfigMap
unfolding read
get_config o h = read o.config h

-- A diagnostic config that is set on one metric of the plain constructor shows on every other such
-- metric, whenever and in whatever heap each of the two was made, since the references of all of them
-- name the default instance; no message is changed.
pub set_diagnostic_config_shared :
    (made_a made_b h : Heap) (p : ℕ) (v : ConfigMap)
    → h.maps p ≡ some v
    → let a = (construct made_a).0 in
      let b = (construct made_b).0 in
      (h' : Heap) × (set_diagnostic_config (map_at p) a h ≡ some h')
      × (get_config a h' ≡ some v)
      × (get_config b h' ≡ some v)
      × (h'.messages ≡ h.messages)
unfolding construct set_diagnostic_config get_config
set_diagnostic_config_shared made_a made_b h p v e =
    (record h { default_config = v }, ground arith, refl, refl, refl)

-- A copy of a metric that wraps a message with a config keeps the reference into that message: when
-- the message is gone the reference dangles, though the copy's own message holds the config.
pub copy_dangles :
    (h : Heap) (p : ℕ) (m : Rpc.Metric) (v : ConfigMap) (o : Object)
    → h.messages p ≡ some m
    → m.config ≡ some v
    → wrap p h ≡ some o
    → p ≢ h.next
    → (c : Object) × (h₁ : Heap) × (copy o h ≡ some (c, h₁))
      × (get_config c h₁ ≡ some v)
      × (get_config c (free p h₁) ≡ none)
      × ((free p h₁).messages c.rpc_metric_ptr ≡ some m)
unfolding wrap copy get_config free
copy_dangles h p m v o here has wrapped fresh = (
  record { rpc_metric_ptr = h.next; config = config_of p; delete_metric_ptr = true },
  allocate m h,
  ground arith,
  ground arith,
  ground arith,
  ground arith,
)

-- ===== src/Rpc/Stream.antt =====
-- The messages of the stream of a streaming collector (src/snap/rpc/plugin.pb.h).
use snap_plugin_lib_cpp.Base.{Option, List, String}
use snap_plugin_lib_cpp.Base.Int.{ℤ}
use snap_plugin_lib_cpp.Rpc.{Metric}

pub record MetricsReply : Type 0 where
  pub metrics : List Metric
  pub error : String

pub record ErrReply : Type 0 where
  pub error : String

pub record CollectReply : Type 0 where
  pub metrics_reply : MetricsReply
  pub error : ErrReply

pub record CollectArg : Type 0 where
  -- the metrics of `metrics_arg`, if it is present
  pub metrics_arg : Option (List Metric)
  pub max_collect_duration : ℤ
  pub max_metrics_buffer : ℤ

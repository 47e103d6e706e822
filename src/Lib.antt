-- ===== src/Lib.antt =====
-- snap_plugin_lib_cpp: a model of the C++ library for plugins of the Snap telemetry framework, with
-- its proofs. A plugin built on the library is a gRPC server: the handlers of src/snap/proxy turn the
-- messages of the protocol into Metric and Config objects, call the plugin's methods, and turn what
-- these return or throw into answers. A streaming collector talks over one long stream instead,
-- which four threads serve through channels. The command line says how the server is set up.
--
-- The files, and the code that they model:
--   Rpc, Rpc/Policy, Rpc/Stream   the messages of src/snap/rpc/plugin.pb.h: their fields, the presence
--       of submessages, and the oneof with a metric's datum
--   Namespace, Namespace/Element  Namespace and NamespaceElement of src/snap/metric.h, metric.cc;
--       Namespace/Laws has the proofs
--   Metric       class Metric of the same files, by value: the message, the memoized namespace and
--       tags, the type. Metric/Memo is about the memoized members, Metric/Data about set_data and the
--       getters, Metric/Clock about the time stamps
--   Metric/Store the same class over a heap of messages: who owns a message, and what ConfigMap the
--       reference in the member config names
--   Config, Config/Rule   Config, ConfigPolicy and Rule of src/snap/config.h, config.cc; proofs in
--       Config/Keys, Config/Defaults and Config/Order, which is about the order of the rules
--   Stream/Channel, Send, Receive   src/snap/proxy/stream_collector_proxy.h and .cc: the
--       channel (StreamChannel), the thread metricSend and the body of errorSend (Send), the body of
--       streamRecv and the thread PutSendMetsAndErrMsg (Receive). Send/Shared has the statements of the
--       first two in any order
--   Stream/Threads   StreamMetrics of the same files: the four threads as one system whose steps come
--       in any order, between steps of the plugin. Closing is about the channels and their ends, Blocked
--       about a cancellation while metricSend waits; Replies, Kept, Effects and Delivery follow the
--       metrics and the messages from the plugin to the stream, and Capped the limit on the size of a
--       reply from the flag on; Tidy and Caught are about how metricSend catches up, and Later is about
--       a stream after one that was cancelled
--   Proxy/Heartbeat, Handlers, Replies   src/snap/proxy/plugin_proxy.cc, collector_proxy.cc,
--       processor_proxy.cc, publisher_proxy.cc and the unary calls of stream_collector_proxy.cc, each
--       handler by itself. Proxy/Services has the four services as a whole, with the PluginImpl that
--       their calls share: Idle is about the calls that leave the plugin alone, Watched about
--       HeartbeatWatch beside the calls
--   Flags, Flags/Json, Flags/Config, Flags/Options, Flags/Shown   src/snap/flags.h and flags.cc
--   Plugin, Plugin/Interface, Stopwatch, Diagnostics, Starts   src/snap/plugin.h and plugin.cc:
--       Meta, the interfaces by their types, the start functions from the parsed flags, and the
--       diagnostic printer: the check of the config policy (Diagnostics, Diagnostics/Requirements), the
--       catalog and the collected metrics (Diagnostics/Show, Diagnostics/Shown), what the preprocessor
--       selects (Diagnostics/Platform), and the diagnosis from the flags on (Diagnostics/Started)
--   Export/Certificates, Export/Server   src/snap/grpc_export.cc: the TLS files, and the steps of
--       DoExport. Export/Launch goes from the start functions to the server that runs,
--       and Export/Launch/Program from the command line
--   Examples/Graffiti   examples/processor/src/graffiti.cc, and its answer through Proxy/Handlers
--   Examples/Log        examples/publisher/src/log.cc
--   Examples/Types, Entries, Collector   examples/collector/src/rando.cc
--   Examples/Streamer   examples/streaming-collector/src/rando.cc and rando.h, with its two
--       threads statement by statement in Streamer/Race: Apart is about the iterator, Offers about
--       what is offered
--   Examples/Mains      the main functions of the four, through Export/Launch/Program
--   Base         strings, lists, maps and machine integers that the others share
--   Tests        the theorems at concrete inputs
--
-- Correspondence. A function of the model has the name of the source's, in lower case with
-- underscores; an overload is named after its type (add_rule: add_string_rule and so on). A method
-- that changes its object returns the new one; an exception is a `none` or a constructor of its own.
-- A std::map and a protobuf Map are association lists (Base/Dict), a
-- std::map that the source iterates in the order of its keys (Base/Sorted). Integers are those of Base/Int, a
-- conversion to a machine word being written out. A float is its bit pattern, since the library only
-- stores it. The readings of the clock are a function of their number.
--
-- Parameters: the plugin's own methods, where no example is meant; nlohmann::json and the stores of
-- boost::program_options (Flags/Json.Libraries, Flags/Config.JsonObjects); options_description
-- (Flags/Options.ProgramOptions, with its documented behaviour as Flags/Options/Laws.IsListing); the
-- file system with boost::split (Export/Certificates.Files); the port that gRPC binds;
-- std::to_string, the conversions and prints of numbers and times, and random numbers. A theorem about
-- them names what it assumes.
--
-- Bounds and fuel: parse_command_line_flags takes fuel for the depth of its calls, and parse_flags
-- gives it one more than there are arguments. A loop over messages is over the list of what is read;
-- the loops of the threads are over the list of their rounds, or a number of rounds,
-- or unbounded as steps of a relation.
--
-- Not modelled: the generated code of src/snap/rpc beyond the messages above; the wait of the futures of
-- std::async, threads of a former stream that still run beside those of the next one, and what two
-- threads do to one object within one statement; of the diagnostic printer
-- the padding and the closing words; the HTTP server of the stand-alone mode and the wait for the
-- server, which are calls of libraries; printed lines and logs but those that are named; the tests.
mod Base
pub mod Rpc
pub mod Namespace
pub mod Metric
pub mod Config
pub mod Stream
pub mod Proxy
pub mod Flags
pub mod Plugin
pub mod Export
pub mod Examples
mod Tests

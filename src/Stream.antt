-- ===== src/Stream.antt =====
-- The proxy of a streaming collector (src/snap/proxy/stream_collector_proxy.h and .cc): the
-- channels between its threads, the thread that sends metrics, the others, and all of them together.
pub mod Channel
pub mod Send
pub mod Receive
pub mod Threads

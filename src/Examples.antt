-- ===== src/Examples.antt =====
-- The plugins of examples, clients of the library.
pub mod Graffiti
pub mod Log
pub mod Types
pub mod Entries
pub mod Collector
pub mod Streamer
pub mod Mains

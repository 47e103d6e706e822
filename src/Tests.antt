-- ===== src/Tests.antt =====
-- Runs of the theorems on concrete inputs, by the part of the library.
mod Data
mod Streaming
mod Front
mod Hosting
mod Threads
mod Plugins
mod Services
mod Policies

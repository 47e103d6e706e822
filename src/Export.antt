-- ===== src/Export.antt =====
-- The exporter (src/snap/grpc_export.h, grpc_export_impl.h and grpc_export.cc).
pub mod Certificates
pub mod Server
pub mod Launch

-- ===== src/Server.antt =====
-- app/config.py, app/grpc_server.py and app/main.py: the configuration, and the service around the
-- pipeline.
pub mod Config
pub mod Grpc
pub mod Boot
pub mod Verdicts
mod Tests

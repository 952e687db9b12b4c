-- ===== src/Oauth2.antt =====
-- The package pkg/oauth2: a module for each of its files, and for what they share.
pub mod Error
pub mod Exec
pub mod Types
pub mod Store
pub mod Telemetry
pub mod Encoding
pub mod Service
pub mod Http
pub mod Handlers
pub mod Middleware

-- ===== src/Certificate.antt =====
-- The package sample-server/internal/certificate: certificates and the ACME HTTP-01 challenges that
-- prove the control of their domains.
pub mod Model
pub mod Store
pub mod Handler

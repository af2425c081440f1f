-- ===== src/Api.antt =====
-- api/api.go
pub mod Defs
pub mod Laws
pub mod Served

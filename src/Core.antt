-- ===== src/Core.antt =====
-- internal/core: providers and the endpoints that they belong to.
pub mod Time
pub mod Provider
pub mod Endpoint
pub mod NodeInfo

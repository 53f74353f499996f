-- ===== src/Api.antt =====
-- Routes, requests and replies without a transport (api_core/api_core.c).
pub mod Query
pub mod Routes
mod Tests

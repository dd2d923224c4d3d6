-- ===== src/Api.antt =====
-- internal/api: the REST API of the dashboard.
pub mod Routes
pub mod Settings
pub mod Handlers

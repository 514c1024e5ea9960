-- ===== src/Api.antt =====
-- internal/api: the HTTP layer over the services.
pub mod Texts
pub mod Errors
pub mod Response
pub mod Auth
pub mod Handlers
pub mod Router

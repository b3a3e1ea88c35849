-- ===== src/Endpoints.antt =====
-- The package internal/endpoints: the handlers of the API's routes.
pub mod Gateways
pub mod Users
pub mod Organizations

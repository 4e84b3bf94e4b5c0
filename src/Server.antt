-- ===== src/Server.antt =====
-- src/server: the RESP server and the admin service.
pub mod Connection
pub mod Admin
pub mod Main

-- ===== src/Resp.antt =====
-- src/resp: the RESP wire format, its printer (util.go) and its parser (parser.go).
pub mod Build
pub mod Context
pub mod Parser

-- ===== src/Auth.antt =====
-- internal/middleware: how a caller of the MCP server proves who it is.
pub mod Options
pub mod Errors
pub mod Manager
pub mod Login
pub mod Limiter
pub mod Context
pub mod Transport
pub mod Authenticator

-- ===== src/Mcp.antt =====
-- internal/controller/mcp: the tools as the protocol's server offers them.
pub mod Scalars

-- ===== src/Mcp.antt =====
-- internal/mcpserver/server.go: the MCP server's own parts: the framing of its input.
pub mod Reader

-- ===== src/Proxy.antt =====
-- internal/proxy: the MCP endpoint. `Mcp` is mcp.go, `Schema` schema.go, `ParamHeaders`
-- paramheaders.go, `Client` client.go, `Catalog` catalog.go, `Oauth` oauth.go; `Select`, `Route`
-- and `Handler` are handler.go; `World` is the state and the outside that they share.
pub mod Mcp
pub mod Schema
pub mod ParamHeaders
pub mod World
pub mod Client
pub mod Catalog
pub mod Select
pub mod Provenance
pub mod Route
pub mod Oauth
pub mod ToolsCall
pub mod ToolsList
pub mod Serve
mod Tests

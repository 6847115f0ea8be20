-- ===== src/Proxy/Oauth.antt =====
-- internal/proxy/oauth.go: the protected resource metadata (RFC 9728) and its URL.
use Prim.Native.String.{◌++◌ as append}
use mt_mcp_proxy.Base.{String, not, ◌||◌, List, [], ◌∷◌, ◌==◌, if◌then◌else◌}
use mt_mcp_proxy.Base.Text.{has_suffix, trim_suffix}
use mt_mcp_proxy.Http.{Request, header_get}
use mt_mcp_proxy.Config.{ServerConfig, AuthConfig, or_default}

pub record ProtectedResourceMetadata : Type 0 where
  pub resource : String
  pub authorization_servers : List String
  pub scopes_supported : List String
  pub bearer_methods_supported : List String

unfoldable pub request_scheme : Request → String
unfolding header_get
request_scheme r =
    if r.tls || header_get r.headers "X-Forwarded-Proto" == "https" then "https" else "http"

unfoldable pub resource_url : ServerConfig → Request → String
unfolding request_scheme trim_suffix has_suffix
resource_url cfg r =
    let path = or_default cfg.path "/mcp" in
    let ext = trim_suffix cfg.external_url "/" in
    if not (cfg.external_url == "")
    then (if has_suffix ext path then ext else append ext path)
    else append (request_scheme r) (append "://" (append r.host path))

abbrev pub well_known : String
well_known = "/.well-known/oauth-protected-resource"

unfoldable pub metadata_url : ServerConfig → Request → String
unfolding request_scheme trim_suffix has_suffix
metadata_url cfg r =
    let path = or_default cfg.path "/mcp" in
    let ext = trim_suffix cfg.external_url "/" in
    let ext' = if has_suffix ext path then trim_suffix ext path else ext in
    if not (cfg.external_url == "")
    then append (trim_suffix ext' "/") well_known
    else append (request_scheme r) (append "://" (append r.host well_known))

-- The document that `ServeProtectedResourceMetadata` encodes.
unfoldable pub protected_resource_metadata :
    ServerConfig → AuthConfig → Request → ProtectedResourceMetadata
unfolding resource_url
protected_resource_metadata cfg auth r = record {
  resource = resource_url cfg r;
  authorization_servers = if not (auth.issuer == "") then auth.issuer ∷ [] else [];
  scopes_supported = auth.scopes_supported;
  bearer_methods_supported = "header" ∷ [];
}

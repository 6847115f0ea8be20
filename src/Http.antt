-- ===== src/Http.antt =====
-- The HTTP request that the proxy receives, as far as its handlers look at it: `net/http` has
-- parsed it. Header names are in canonical form, and `Get` of a missing header is "".
use mt_mcp_proxy.Base.{String, Bool, Option, none, some}
use mt_mcp_proxy.Base.Dict.{Dict, lookup}
use mt_mcp_proxy.Json.{Json}

-- What `io.ReadAll` and `json.Unmarshal` make of the body: a read error, a parse error, or a
-- JSON-RPC request (`jsonRPCRequest`), where a missing member of raw type is `none`.
pub record RpcRequest : Type 0 where
  pub method : String
  pub params : Option Json
  pub id : Option Json

pub data Body : Type 0 where
  unreadable malformed : Body
  decoded : RpcRequest → Body

pub record Request : Type 0 where
  pub method : String
  pub host : String
  pub tls : Bool
  pub headers : Dict String
  pub body : Body

abbrev pub or_empty : Option String → String
or_empty none = ""
or_empty (some s) = s

unfoldable pub header_get : Dict String → String → String
header_get h k = or_empty (lookup k h)

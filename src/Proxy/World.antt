-- ===== src/Proxy/World.antt =====
-- What the handlers share: the state that a request finds and leaves, and the outside.
use mt_mcp_proxy.Base.{ℕ, ◌+◌, String, Option, List, [], ◌∷◌, ◌++◌}
use mt_mcp_proxy.Base.Dict.{Dict, insert}
use mt_mcp_proxy.Json.{Json}
use mt_mcp_proxy.Http.{RpcRequest}
use mt_mcp_proxy.Registry.{Url, Backend}
use mt_mcp_proxy.Session.{Store}
use mt_mcp_proxy.Proxy.Mcp.{RawTool}

-- A request that the proxy sends to a backend. A DELETE has no body.
pub record Outgoing : Type 0 where
  pub method : String
  pub url : Url
  pub headers : Dict String
  pub body : Option RpcRequest

-- A backend's response; a body of `none` cannot be read to its end.
pub record Incoming : Type 0 where
  pub status : ℕ
  pub headers : Dict String
  pub body : Option String

-- What the network makes of a request: a response or a transport error, after some time.
pub record Reply : Type 0 where
  pub elapsed : ℕ
  pub response : Option Incoming

pub record Exchange : Type 0 where
  pub request : Outgoing
  pub reply : Reply

-- The outside: the network, which may answer by all that was exchanged before, and the functions
-- of other packages that are used as they are.
pub record Env : Type 0 where
  pub respond : List Exchange → Outgoing → Reply
  -- `http.CanonicalHeaderKey`
  pub canonical : String → String
  -- the verb `%q` of `fmt`
  pub quote : String → String
  -- `json.Unmarshal` into a raw value; `none` is a syntax error
  pub parse_json : String → Option Json
  -- the decimal form of a JSON number's float64, if that is an int64 (`strconv.FormatInt`)
  pub format_int : String → Option String
  -- `base64.StdEncoding` of the bytes of a text
  pub base64 : String → String

-- `catalog` of catalog.go; `tools` is `none` for a nil slice. It lies in the state, and tenants
-- refer to it by its place in `unique`, so that those who share a catalog share its cache.
pub record CatalogEntry : Type 0 where
  pub backend : Backend
  pub cred : String
  pub headers : Dict String
  pub ttl : ℕ
  pub tools : Option (List RawTool)
  pub fetched_at : ℕ

pub record Catalogs : Type 0 where
  pub by_tenant : Dict ℕ
  pub unique : List CatalogEntry

pub record World : Type 0 where
  pub store : Store
  pub catalogs : Catalogs
  pub exchanged : List Exchange
  pub now : ℕ

-- `http.Header.Set`
abbrev pub set_header : Env → String → String → Dict String → Dict String
set_header env k v h = insert (env.canonical k) v h

-- `http.Client.Do`: one exchange more, and the clock moves on.
unfoldable pub do_request : Env → Outgoing → World → Option Incoming × World
do_request env req w =
    let reply = env.respond w.exchanged req in
    (
      reply.response,
      record w {
        exchanged = w.exchanged ++ record { request = req; reply = reply } ∷ [];
        now = w.now + reply.elapsed;
      },
    )

-- ===== src/Auth/Tests.antt =====
-- A verifier whose parser takes every token, with claims of one group.
use mt_mcp_proxy.Base.{
  ◌≡◌, ◌≢◌, ◌↔◌, refl, String, true, Option, none, some, ◌==◌, if◌then◌else◌, List, [], ◌∷◌, ok,
  err,
}
use mt_mcp_proxy.Base.Dict.{lookup}
use mt_mcp_proxy.Base.Text.{to_lower, trim_space, trim_left, trim_right, is_space}
use mt_mcp_proxy.Json.{str, array, object}
use mt_mcp_proxy.Http.{Request, unreadable, header_get}
use mt_mcp_proxy.Auth.{
  insufficient_scope, Claims, ParserOption, JwtVerifier, check_audience, has_required_scope,
  jwt_groups, bearer_token, claims_groups, extract_groups, strip_fold, token_scopes, fields_from,
  options, raw_scope,
}
use mt_mcp_proxy.Config.{AuthConfig}
use mt_mcp_proxy.Config.Validate.{validate_auth}
use mt_mcp_proxy.Proxy.Schema.{struct_field, equal_fold}
use mt_mcp_proxy.Auth.{expiration_required, with_issuer, parser_opts, accepted_audiences}
use mt_mcp_proxy.Auth.New.{
  read_key, Outside, Verifier, jwt, of_key_set, answered, failed, new, new_static, load_static_key,
  load_public_key, new_jwks, jwks_url, discover_jwks_url, discovery_url, trim_slashes, jwks_uri_of,
}
use mt_mcp_proxy.Auth.New.Laws.{Trusts, new-Trusts}
use mt_mcp_proxy.Fixtures.{usable_config}
use mt_mcp_proxy.Auth.Laws.{
  Meets, Accepts, scopes_of, jwt_groups_iff, jwt_groups-insufficient_scope,
}

abbrev claims : Claims
claims =
    ("aud", str "proxy") ∷ ("scope", str "read write") ∷ ("groups", array (str "dev" ∷ [])) ∷ []

abbrev one : String → List String
one s = s ∷ []

abbrev any_token : List ParserOption → Unit {0} → String → Option Claims
any_token opts key token = some claims

abbrev verifier : List String → JwtVerifier (Unit {0})
verifier scopes = record {
  groups_claim = "groups";
  keyfunc = tt;
  parser_opts = [];
  valid_algs = [];
  scopes_supported = scopes;
  audiences = "proxy" ∷ [];
}

abbrev request : Request
request = record {
  method = "POST";
  host = "proxy.example.org";
  tls = true;
  headers = ("Authorization", "bearer abc") ∷ [];
  body = unreadable;
}

groups_read : jwt_groups any_token (verifier ("write" ∷ [])) request ≡ ok ("dev" ∷ [])
unfolding jwt_groups bearer_token claims_groups check_audience has_required_scope extract_groups
    lookup strip_fold trim_space trim_left trim_right is_space to_lower token_scopes fields_from
    header_get
groups_read = refl

lacks_scope : jwt_groups any_token (verifier ("admin" ∷ [])) request ≡ err insufficient_scope
unfolding jwt_groups bearer_token claims_groups check_audience has_required_scope extract_groups
    lookup strip_fold trim_space trim_left trim_right is_space to_lower token_scopes fields_from
    header_get
lacks_scope = refl

jwt_groups_iff_example :
    (jwt_groups any_token (verifier ("write" ∷ [])) request ≡ ok ("dev" ∷ []))
    ↔ Accepts any_token (verifier ("write" ∷ [])) request ("dev" ∷ [])
jwt_groups_iff_example = jwt_groups_iff any_token (verifier ("write" ∷ [])) request ("dev" ∷ [])

jwt_groups-insufficient_scope_example :
    (token : String) × (found : Claims) × (bearer_token request ≡ ok token)
    × (any_token (options (verifier ("admin" ∷ []))) tt token ≡ some found)
    × (check_audience found ("proxy" ∷ []) ≡ ok tt)
    × (one "admin" ≢ [])
    × ¬ Meets ("admin" ∷ []) (scopes_of (raw_scope found))
jwt_groups-insufficient_scope_example =
    jwt_groups-insufficient_scope any_token (verifier ("admin" ∷ [])) request lacks_scope

-- A world in which the discovery document names a key set.
abbrev outside : Outside (Unit {0}) String
outside = record {
  read_file = λ path. none;
  pem_decode = λ s. none;
  parse_public_key = λ s. none;
  parse_url = λ s. some (record { path = "/realm/"; with_path = λ p. p });
  fetch = λ url.
      if url == "/realm/.well-known/openid-configuration" then answered 200 "doc" else failed;
  decode_json = λ s. some (object (("jwks_uri", str "https://idp/keys") ∷ []));
  key_set = λ url. some url;
}

abbrev jwks_config : AuthConfig
jwks_config = record usable_config.auth {
  mode = "jwks";
  hmac_secret = "";
  issuer = "https://idp/realm/";
}

abbrev jwks_verifier : Verifier (Unit {0}) String
jwks_verifier = jwt (record {
  groups_claim = "groups";
  keyfunc = of_key_set "https://idp/keys";
  parser_opts = expiration_required ∷ with_issuer "https://idp/realm/" ∷ [];
  valid_algs = [];
  scopes_supported = [];
  audiences = [];
})

new_jwks_runs : new outside jwks_config ≡ ok jwks_verifier
unfolding new new_jwks jwks_url discover_jwks_url discovery_url trim_slashes jwks_uri_of
    struct_field equal_fold parser_opts accepted_audiences
new_jwks_runs = refl

new-Trusts_example : Trusts jwks_config jwks_verifier
new-Trusts_example = new-Trusts outside jwks_config jwks_verifier new_jwks_runs

abbrev pem_config : AuthConfig
pem_config = record usable_config.auth { hmac_secret = ""; public_key_pem_file = "key.pem" }

pem_valid : validate_auth pem_config ≡ ok tt
unfolding validate_auth
pem_valid = refl

pem_unreadable : new outside pem_config ≡ err read_key
unfolding new new_static load_static_key load_public_key
pem_unreadable = refl

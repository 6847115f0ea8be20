-- ===== src/Auth/New.antt =====
-- auth.go: `New`, `loadStaticKey` and `discoverJWKSURL`. Files, PEM, the key parsers, the key sets of
-- the keyfunc library and the network are parameters.
pub mod Laws
pub mod Failures
use Prim.Native.Char.{code}
use Prim.Native.String.{[] as empty_text, ◌∷◌ as cons_char, ◌++◌ as append}
use mt_mcp_proxy.Base.{
  ℕ, String, Bool, true, false, not, Option, none, some, List, [], ◌∷◌, ◌==◌, Result, ok, err,
  ◌>>=◌, ◌>>◌, fail_if, wrap_error, if◌then◌else◌, nat_eq,
}
use mt_mcp_proxy.Base.Text.{end_with}
use mt_mcp_proxy.Json.{Json, null, str, obj}
use mt_mcp_proxy.Http.{Request}
use mt_mcp_proxy.Proxy.Schema.{struct_field}
use mt_mcp_proxy.Config.{AuthConfig, auth_mode_jwks, auth_mode_static, auth_mode_insecure}
use mt_mcp_proxy.Auth.{
  AuthError, Claims, ParserOption, parser_opts, accepted_audiences, InsecureVerifier, JwtVerifier,
  insecure_groups, jwt_groups,
}

pub data NewError : Type 0 where
  read_key invalid_pem parse_key init_jwks : NewError
  no_issuer invalid_issuer build_request fetch_failed bad_document no_jwks_uri : NewError
  bad_status : ℕ → NewError
  unsupported_mode : String → NewError

-- `url.URL` of the issuer: its path, and the text of a URL with another path.
pub record IssuerUrl : Type 0 where
  pub path : String
  pub with_path : String → String

-- What comes of the GET of the discovery document.
pub data Fetched : Type 0 where
  not_built failed : Fetched
  answered : ℕ → String → Fetched

-- The outside. `none` stands for an error.
pub record Outside (PublicKey KeySet : Type 0) : Type 0 where
  pub read_file : String → Option String
  pub pem_decode : String → Option String
  pub parse_public_key : String → Option PublicKey
  pub parse_url : String → Option IssuerUrl
  pub fetch : String → Fetched
  -- the first JSON value of the text
  pub decode_json : String → Option Json
  -- `keyfunc.NewDefaultCtx`
  pub key_set : String → Option KeySet

-- What the key function of a verifier returns.
pub data Key (PublicKey KeySet : Type 0) : Type 0 where
  hmac : String → Key PublicKey KeySet
  public_key : PublicKey → Key PublicKey KeySet
  of_key_set : KeySet → Key PublicKey KeySet

-- The `Verifier` interface.
pub data Verifier (PublicKey KeySet : Type 0) : Type 0 where
  insecure : InsecureVerifier → Verifier PublicKey KeySet
  jwt : JwtVerifier (Key PublicKey KeySet) → Verifier PublicKey KeySet

abbrev pub hmac_algs : List String
hmac_algs = "HS256" ∷ "HS384" ∷ "HS512" ∷ []

abbrev pub public_key_algs : List String
public_key_algs =
    "RS256" ∷ "RS384" ∷ "RS512" ∷ "ES256" ∷ "ES384" ∷ "ES512" ∷ "PS256" ∷ "PS384" ∷ "PS512" ∷ []

abbrev pub or_error {ℓ} : {A : Type ℓ} → Option A → NewError → Result NewError A
or_error none e = err e
or_error (some a) e = ok a

-- `strings.TrimRight(s, "/")`
unfoldable pub trim_slashes : String → String
trim_slashes empty_text = empty_text
trim_slashes (cons_char c s) = end_with c (trim_slashes s) (nat_eq (code c) b'/')

abbrev string_or_null : Json → Option String
string_or_null (str s) = some s
string_or_null null = some ""
string_or_null _ = none

abbrev or_missing : Option Json → Option String
or_missing none = some ""
or_missing (some v) = string_or_null v

-- The field `jwks_uri` of the document; the outer `none` is a type error.
unfoldable pub jwks_uri_of : Json → Option String
unfolding struct_field
jwks_uri_of (obj fs) = or_missing (struct_field "jwks_uri" fs)
jwks_uri_of null = some ""
jwks_uri_of _ = none

-- The well-known path is appended to the issuer's own.
unfoldable pub discovery_url : IssuerUrl → String
unfolding trim_slashes
discovery_url base =
    base.with_path (append (trim_slashes base.path) "/.well-known/openid-configuration")

module _ {PublicKey KeySet : Type 0} (o : Outside PublicKey KeySet) where
  -- The second half of `loadStaticKey`.
  unfoldable pub load_public_key : AuthConfig → Result NewError (Key PublicKey KeySet × List String)
  load_public_key c = do
    pem ← or_error (o.read_file c.public_key_pem_file) read_key
    block ← or_error (o.pem_decode pem) invalid_pem
    key ← or_error (o.parse_public_key block) parse_key
    ok (public_key key, public_key_algs)

  unfoldable pub load_static_key : AuthConfig → Result NewError (Key PublicKey KeySet × List String)
  unfolding load_public_key
  load_static_key c =
      if not (c.hmac_secret == "") then ok (hmac c.hmac_secret, hmac_algs) else load_public_key c

  abbrev pub document : Option Json → Result NewError String
  document none = err bad_document
  document (some v) = elim (jwks_uri_of v) [
    | none ↦ err bad_document
    | some uri ↦ if uri == "" then err no_jwks_uri else ok uri
  ]

  abbrev pub discovered : Fetched → Result NewError String
  discovered not_built = err build_request
  discovered failed = err fetch_failed
  discovered (answered status body) =
      if not (nat_eq status 200) then err (bad_status status) else document (o.decode_json body)

  unfoldable pub discover_jwks_url : String → Result NewError String
  unfolding discovery_url jwks_uri_of
  discover_jwks_url issuer = if issuer == "" then err no_issuer else (do
    base ← or_error (o.parse_url issuer) invalid_issuer
    discovered (o.fetch (discovery_url base)))

  abbrev pub jwt_verifier :
      AuthConfig → Key PublicKey KeySet → List String → Verifier PublicKey KeySet
  jwt_verifier c key algs = jwt (record {
    groups_claim = c.groups_claim;
    keyfunc = key;
    parser_opts = parser_opts c;
    valid_algs = algs;
    scopes_supported = c.scopes_supported;
    audiences = accepted_audiences c;
  })

  unfoldable pub new_static : AuthConfig → Result NewError (Verifier PublicKey KeySet)
  new_static c = do (key, algs) ← load_static_key c; ok (jwt_verifier c key algs)

  unfoldable pub jwks_url : AuthConfig → Result NewError String
  jwks_url c = if c.jwks_url == "" then discover_jwks_url c.issuer else ok c.jwks_url

  unfoldable pub new_jwks : AuthConfig → Result NewError (Verifier PublicKey KeySet)
  new_jwks c = do
    url ← jwks_url c
    keys ← or_error (o.key_set url) init_jwks
    ok (jwt_verifier c (of_key_set keys) [])

  -- `New`
  unfoldable pub new : AuthConfig → Result NewError (Verifier PublicKey KeySet)
  unfolding parser_opts accepted_audiences
  new c =
      if c.mode == auth_mode_insecure
      then ok (
          insecure (record {
            groups_claim = c.groups_claim;
            scopes_supported = c.scopes_supported;
            audiences = accepted_audiences c;
          }))
      else if c.mode == auth_mode_static
      then new_static c
      else if c.mode == auth_mode_jwks
      then new_jwks c
      else err (unsupported_mode c.mode)

-- `Verifier.Groups`, dispatched on the verifier; the parsers are the JWT library's.
unfoldable pub groups :
    {PublicKey KeySet : Type 0}
    → (String → Option Claims)
    → (List ParserOption → Key PublicKey KeySet → String → Option Claims)
    → Verifier PublicKey KeySet
    → Request
    → Result AuthError (List String)
unfolding insecure_groups jwt_groups
groups parse_unverified parse_with_claims (insecure v) r = insecure_groups parse_unverified v r
groups parse_unverified parse_with_claims (jwt v) r = jwt_groups parse_with_claims v r

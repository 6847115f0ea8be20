-- ===== src/Auth.antt =====
-- internal/auth/auth.go: the bearer token, its claims, and the groups that they grant. Parsing and
-- verifying the token is the JWT library's, a parameter: `none` is its error.
pub mod Laws
pub mod New
mod Tests
use Prim.Native.Char.{code}
use Prim.Native.String.{[] as empty_text, ◌∷◌ as cons_char, ◌++◌ as append}
use mt_mcp_proxy.Base.{
  String, Bool, true, false, not, ◌&&◌, Option, none, some, List, [], ◌∷◌, ◌++◌, ◌==◌, Result, ok,
  err, ◌>>=◌, ◌>>◌, fail_if, if◌then◌else◌, nat_eq, any, contains, is_empty,
}
use mt_mcp_proxy.Base.Dict.{Dict, lookup}
use mt_mcp_proxy.Base.Text.{is_space, to_lower, trim_space}
use mt_mcp_proxy.Json.{Json, Items, nil, cons, str, arr}
use mt_mcp_proxy.Http.{Request, header_get}
use mt_mcp_proxy.Config.{AuthConfig}

pub data Reason : Type 0 where
  missing_header not_bearer invalid_token bad_audience missing_claim claim_type : Reason

-- `errors.Is` tells the first two apart; `other` is any error that wraps neither.
pub data AuthError : Type 0 where
  unauthorized : Reason → AuthError
  insufficient_scope : AuthError
  other : AuthError

-- `jwt.MapClaims`
abbrev pub Claims : Type 0
Claims = Dict Json

-- `strings.EqualFold(h[:len(prefix)], prefix)`, and what follows; `none` if `h` is shorter.
unfoldable pub strip_fold : String → String → Option String
unfolding to_lower
strip_fold empty_text s = some s
strip_fold (cons_char d p) empty_text = none
strip_fold (cons_char d p) (cons_char c s) =
    if nat_eq (to_lower (code c)) (to_lower (code d)) then strip_fold p s else none

unfoldable pub bearer_token : Request → Result AuthError String
unfolding header_get strip_fold trim_space
bearer_token r =
    let h = header_get r.headers "Authorization" in
    if h == "" then err (unauthorized missing_header) else elim (strip_fold "Bearer " h) [
      | none ↦ err (unauthorized not_bearer)
      | some rest ↦ ok (trim_space rest)
    ]

unfoldable pub accepted_audiences : AuthConfig → List String
accepted_audiences c =
    (if not (c.audience == "") then c.audience ∷ [] else []) ++ c.additional_audiences

-- The elements of a JSON array that are strings.
abbrev pub strings_in : Items → List String
strings_in nil = []
strings_in (cons (str s) vs) = s ∷ strings_in vs
strings_in (cons v vs) = strings_in vs

abbrev pub token_auds : Option Json → List String
token_auds (some (str s)) = s ∷ []
token_auds (some (arr vs)) = strings_in vs
token_auds _ = []

unfoldable pub check_audience : Claims → List String → Result AuthError (Unit {0})
check_audience claims accepted =
    if is_empty accepted
    then ok tt
    else if any (contains accepted) (token_auds (lookup "aud" claims))
    then ok tt
    else err (unauthorized bad_audience)

-- `strings.Fields`: `cur` is the word that is being read.
unfoldable pub fields_from : String → String → List String
unfolding is_space
fields_from cur empty_text = if cur == "" then [] else cur ∷ []
fields_from cur (cons_char c s) =
    let after = fields_from empty_text s in
    let longer = fields_from (append cur (cons_char c empty_text)) s in
    if is_space (code c) then (if cur == "" then after else cur ∷ after) else longer

unfoldable pub token_scopes : Json → List String
unfolding fields_from
token_scopes (str s) = fields_from "" s
token_scopes (arr vs) = strings_in vs
token_scopes _ = []

abbrev or_else : Option Json → Option Json → Option Json
or_else none o = o
or_else (some v) o = some v

-- `claims["scope"]`, else `claims["scp"]`
abbrev pub raw_scope : Claims → Option Json
raw_scope claims = or_else (lookup "scope" claims) (lookup "scp" claims)

abbrev pub scope_meets : List String → Option Json → Bool
scope_meets required none = false
scope_meets required (some v) = any (contains (token_scopes v)) required

unfoldable pub has_required_scope : Claims → List String → Bool
unfolding token_scopes
has_required_scope claims required =
    if is_empty required then true else scope_meets required (raw_scope claims)

abbrev pub groups_of : Json → Result AuthError (List String)
groups_of (str s) = if s == "" then ok [] else ok (s ∷ [])
groups_of (arr vs) = ok (strings_in vs)
groups_of _ = err (unauthorized claim_type)

unfoldable pub extract_groups : String → Claims → Result AuthError (List String)
extract_groups groups_claim claims = elim (lookup groups_claim claims) [
  | none ↦ err (unauthorized missing_claim)
  | some raw ↦ groups_of raw
]

pub data ParserOption : Type 0 where
  expiration_required : ParserOption
  with_issuer : String → ParserOption
  valid_methods : List String → ParserOption

unfoldable pub parser_opts : AuthConfig → List ParserOption
parser_opts c =
    expiration_required ∷ (if not (c.issuer == "") then with_issuer c.issuer ∷ [] else [])

-- `insecureVerifier`, and `jwtVerifier` with its key function.
pub record InsecureVerifier : Type 0 where
  pub groups_claim : String
  pub scopes_supported : List String
  pub audiences : List String

pub record JwtVerifier (Key : Type 0) : Type 0 where
  pub groups_claim : String
  pub keyfunc : Key
  pub parser_opts : List ParserOption
  pub valid_algs : List String
  pub scopes_supported : List String
  pub audiences : List String

abbrev pub parsed : Option Claims → Result AuthError Claims
parsed none = err (unauthorized invalid_token)
parsed (some claims) = ok claims

-- The part that both verifiers share after parsing.
unfoldable pub claims_groups :
    List String → List String → String → Claims → Result AuthError (List String)
claims_groups audiences scopes groups_claim claims = do
  check_audience claims audiences
  fail_if (not (is_empty scopes) && not (has_required_scope claims scopes)) insufficient_scope
  extract_groups groups_claim claims

unfoldable pub insecure_groups :
    (String → Option Claims) → InsecureVerifier → Request → Result AuthError (List String)
insecure_groups parse_unverified v r = do
  token ← bearer_token r
  claims ← parsed (parse_unverified token)
  claims_groups v.audiences v.scopes_supported v.groups_claim claims

-- `opts`, with `jwt.WithValidMethods` where algorithms are set.
abbrev pub options : {Key : Type 0} → JwtVerifier Key → List ParserOption
options v = v.parser_opts ++ (if is_empty v.valid_algs then [] else valid_methods v.valid_algs ∷ [])

unfoldable pub jwt_groups :
    {Key : Type 0}
    → (List ParserOption → Key → String → Option Claims)
    → JwtVerifier Key
    → Request
    → Result AuthError (List String)
jwt_groups parse_with_claims v r = do
  token ← bearer_token r
  claims ← parsed (parse_with_claims (options v) v.keyfunc token)
  claims_groups v.audiences v.scopes_supported v.groups_claim claims

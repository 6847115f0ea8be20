-- ===== src/Auth/Laws.antt =====
-- Which requests a verifier accepts, and how it refuses the others.
use mt_mcp_proxy.Base.{
  String, ◌≡◌, ◌≢◌, refl, ◌⊎◌, inl, inr, ◌↔◌, true, false, not, ◌&&◌, Option, none, some, List, [],
  ◌∷◌, arith, ok, err, >>=-eq-ok, In, is_empty, Option-cases, Result-cases,
}
use mt_mcp_proxy.Base.Dict.{lookup}
use mt_mcp_proxy.Base.Member.{any-contains}
use mt_mcp_proxy.Json.{Json}
use mt_mcp_proxy.Http.{Request}
use mt_mcp_proxy.Auth.{
  bad_audience, unauthorized, insufficient_scope, other, Claims, bearer_token, check_audience,
  token_auds, has_required_scope, raw_scope, scope_meets, token_scopes, extract_groups,
  ParserOption, JwtVerifier, options, parsed, claims_groups, jwt_groups,
}

-- The two lists have an element in common.
abbrev pub Meets : List String → List String → Type 0
Meets xs ys = (s : String) × In s xs × In s ys

-- `checkAudience` accepts exactly when no audience is configured, or the token's `aud` names one
-- that is.
check_audience_iff :
    (claims : Claims) (accepted : List String)
    → (check_audience claims accepted ≡ ok tt)
      ↔ ((accepted ≡ []) ⊎ Meets (token_auds (lookup "aud" claims)) accepted)
unfolding check_audience
check_audience_iff claims [] = (λ h. inl refl, λ h. refl)
check_audience_iff claims (a ∷ more) = (
  (λ h. inr ((any-contains (a ∷ more) (token_auds (lookup "aud" claims))).0 (ground arith))),
  (λ h. elim h [
    | inl e ↦ cc
    | inr m ↦ rw ((any-contains (a ∷ more) (token_auds (lookup "aud" claims))).1 m, check_audience)
  ]),
)

abbrev pub scopes_of : Option Json → List String
scopes_of none = []
scopes_of (some v) = token_scopes v

scope_meets_iff :
    (q : String) (qs : List String) (o : Option Json)
    → (scope_meets (q ∷ qs) o ≡ true) ↔ ((q ∷ qs ≡ []) ⊎ Meets (q ∷ qs) (scopes_of o))
scope_meets_iff q qs none = (λ h. cc, λ h. elim h [ inl e ↦ cc | inr m ↦ elim m.2 [ ] ])
scope_meets_iff q qs (some v) = (
  (λ h. inr ((any-contains (token_scopes v) (q ∷ qs)).0 h)),
  (λ h. elim h [ inl e ↦ cc | inr m ↦ (any-contains (token_scopes v) (q ∷ qs)).1 m ]),
)

-- `hasRequiredScope` holds exactly when nothing is required, or the token's `scope` claim (or its
-- `scp` claim, where there is no `scope`) has one of the required scopes.
has_required_scope_iff :
    (claims : Claims) (required : List String)
    → (has_required_scope claims required ≡ true)
      ↔ ((required ≡ []) ⊎ Meets required (scopes_of (raw_scope claims)))
unfolding has_required_scope
has_required_scope_iff claims [] = (λ h. inl refl, λ h. refl)
has_required_scope_iff claims (q ∷ qs) = scope_meets_iff q qs (raw_scope claims)

parsed-eq-ok : (o : Option Claims) {claims : Claims} → parsed o ≡ ok claims → o ≡ some claims
parsed-eq-ok none h = cc
parsed-eq-ok (some c) h = cc

-- What a verifier asks of a request, besides the signature.
pub record Accepts {Key : Type 0} (parse : List ParserOption → Key → String → Option Claims)
    (v : JwtVerifier Key) (r : Request) (groups : List String) : Type 0 where
  pub token : String
  pub claims : Claims
  pub bearer : bearer_token r ≡ ok token
  pub verified : parse (options v) v.keyfunc token ≡ some claims
  pub audience : (v.audiences ≡ []) ⊎ Meets (token_auds (lookup "aud" claims)) v.audiences
  pub scope : (v.scopes_supported ≡ []) ⊎ Meets v.scopes_supported (scopes_of (raw_scope claims))
  pub extracted : extract_groups v.groups_claim claims ≡ ok groups

check_audience_cases :
    (claims : Claims) (accepted : List String)
    → (check_audience claims accepted ≡ ok tt)
      ⊎ (check_audience claims accepted ≡ err (unauthorized bad_audience))
unfolding check_audience
check_audience_cases claims accepted = ground arith

scope_refused_iff :
    (claims : Claims) (scopes : List String)
    → ((not (is_empty scopes) && not (has_required_scope claims scopes)) ≡ false)
      ↔ (has_required_scope claims scopes ≡ true)
unfolding has_required_scope
scope_refused_iff claims [] = (λ h. refl, λ h. refl)
scope_refused_iff claims (q ∷ qs) = ground arith

claims_groups_iff :
    (audiences scopes : List String) (groups_claim : String) (claims : Claims)
    (groups : List String)
    → (claims_groups audiences scopes groups_claim claims ≡ ok groups) ↔ (
        (check_audience claims audiences ≡ ok tt)
        × (has_required_scope claims scopes ≡ true)
        × (extract_groups groups_claim claims ≡ ok groups))
unfolding claims_groups
claims_groups_iff audiences scopes groups_claim claims groups =
    ground (arith, scope_refused_iff claims scopes)

-- A verifier's `Groups` succeeds exactly when the request carries a bearer token that the parser
-- accepts under the verifier's options, whose audience is accepted, which has a required scope
-- where any is configured, and whose groups claim has the returned groups.
pub jwt_groups_iff :
    {Key : Type 0} (parse : List ParserOption → Key → String → Option Claims) (v : JwtVerifier Key)
    (r : Request) (groups : List String)
    → (jwt_groups parse v r ≡ ok groups) ↔ Accepts parse v r groups
unfolding jwt_groups
jwt_groups_iff parse v r groups = (
  (λ h.
      let (token, bearer, h₁) = >>=-eq-ok (bearer_token r) _ h in
      let (claims, verified, h₂) = >>=-eq-ok (parsed (parse (options v) v.keyfunc token)) _ h₁ in
      let (aud, scope, extracted) =
        (claims_groups_iff v.audiences v.scopes_supported v.groups_claim claims groups).0 h₂ in
      record {
        token = token;
        claims = claims;
        bearer = bearer;
        verified = parsed-eq-ok (parse (options v) v.keyfunc token) verified;
        audience = (check_audience_iff claims v.audiences).0 aud;
        scope = (has_required_scope_iff claims v.scopes_supported).0 scope;
        extracted = extracted;
      }),
  (λ a.
      rw (a.bearer, a.verified, jwt_groups)
        ((claims_groups_iff v.audiences v.scopes_supported v.groups_claim a.claims groups).1 (
          (check_audience_iff a.claims v.audiences).1 a.audience,
          (has_required_scope_iff a.claims v.scopes_supported).1 a.scope,
          a.extracted,
        ))),
)

bearer_token-ne-insufficient_scope : (r : Request) → bearer_token r ≢ err insufficient_scope
unfolding bearer_token
bearer_token-ne-insufficient_scope r = ground arith

claims_groups-insufficient_scope :
    (audiences scopes : List String) (groups_claim : String) (claims : Claims)
    → claims_groups audiences scopes groups_claim claims ≡ err insufficient_scope
    → (check_audience claims audiences ≡ ok tt) × (has_required_scope claims scopes ≡ false)
unfolding claims_groups check_audience extract_groups
claims_groups-insufficient_scope audiences scopes groups_claim claims h = ground arith

-- If a verifier's `Groups` reports an insufficient scope, the request carries a bearer token that
-- the parser accepts, whose audience is accepted, and that has none of the required scopes, of
-- which there are some.
pub jwt_groups-insufficient_scope :
    {Key : Type 0} (parse : List ParserOption → Key → String → Option Claims) (v : JwtVerifier Key)
    (r : Request)
    → jwt_groups parse v r ≡ err insufficient_scope
    → (token : String) × (claims : Claims) × (bearer_token r ≡ ok token)
      × (parse (options v) v.keyfunc token ≡ some claims)
      × (check_audience claims v.audiences ≡ ok tt)
      × (v.scopes_supported ≢ [])
      × ¬ Meets v.scopes_supported (scopes_of (raw_scope claims))
unfolding jwt_groups
jwt_groups-insufficient_scope parse v r h = elim (Result-cases (bearer_token r)) [
  | inl (e, failed) ↦ absurd (bearer_token-ne-insufficient_scope r (ground arith))
  | inr (token, bearer) ↦ elim (Option-cases (parse (options v) v.keyfunc token)) [
    | inl failed ↦ absurd (cc (rw (bearer, failed, jwt_groups) at h))
    | inr (claims, verified) ↦
        let (aud, lacks) =
          claims_groups-insufficient_scope v.audiences v.scopes_supported v.groups_claim claims
            (rw (bearer, verified, jwt_groups) at h) in
        (
          token,
          claims,
          bearer,
          verified,
          aud,
          (λ e. cc (lacks, (has_required_scope_iff claims v.scopes_supported).1 (inl e))),
          (λ m. cc (lacks, (has_required_scope_iff claims v.scopes_supported).1 (inr m))),
        )
  ]
]

-- A verifier's `Groups` fails only as unauthorized or for an insufficient scope.
jwt_groups-ne-other :
    {Key : Type 0} (parse : List ParserOption → Key → String → Option Claims) (v : JwtVerifier Key)
    (r : Request)
    → jwt_groups parse v r ≢ err other
unfolding jwt_groups bearer_token claims_groups check_audience extract_groups
jwt_groups-ne-other parse v r = ground arith

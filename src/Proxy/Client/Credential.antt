-- ===== src/Proxy/Client/Credential.antt =====
-- internal/proxy/client.go: whose credential a request carries, and which configured headers may take
-- its place.
use mt_mcp_proxy.Base.{
  String, ◌≡◌, refl, ◌∙◌, ◌⊎◌, inl, inr, true, none, some, [], ◌∷◌, ◌==◌, arith, eq_iff, Bool-cases,
  Option-cases,
}
use mt_mcp_proxy.Base.Dict.{Dict, lookup, insert, lookup-insert}
use mt_mcp_proxy.Http.{RpcRequest}
use mt_mcp_proxy.Registry.{Tenant, effective_credential, stateless}
use mt_mcp_proxy.Proxy.Mcp.{mcp_session_header}
use mt_mcp_proxy.Proxy.ParamHeaders.{merge_into, merge_headers}
use mt_mcp_proxy.Proxy.ParamHeaders.Laws.{or_else}
use mt_mcp_proxy.Proxy.World.{Env, Outgoing}
use mt_mcp_proxy.Proxy.Client.{base_headers, apply_auth, credential_value, post_request}
use mt_mcp_proxy.Proxy.Client.Precedence.{latest, credential_header, apply_auth_lem}

module _ (env : Env) (k : String) where
  -- One of the headers has this canonical name.
  abbrev pub Names : Dict String → Type 0
  Names [] = ⊥
  Names ((j, v) ∷ m) = (env.canonical j ≡ k) ⊎ Names m

  latest-Names : (m : Dict String) (v : String) → latest env k m ≡ some v → Names m
  unfolding latest
  latest-Names [] v h = cc h
  latest-Names ((j, x) ∷ m) v h = elim (Bool-cases (env.canonical j == k)) [
    | inl e ↦ inl ((eq_iff (env.canonical j) k).0 e)
    | inr e ↦ elim (Option-cases (latest env k m)) [
      | inl q ↦ absurd (cc (rw (q, e) at h))
      | inr (y, q) ↦ inr (latest-Names m y q)
    ]
  ]

  Names-insert :
      (j v : String) (m : Dict String) → Names (insert j v m) → (env.canonical j ≡ k) ⊎ Names m
  unfolding insert
  Names-insert j v [] h = ground arith
  Names-insert j v ((i, x) ∷ m) h = ground (arith, Names-insert j v m, eq_iff i j)

  Names-merge_into : (out m : Dict String) → Names (merge_into out m) → Names out ⊎ Names m
  unfolding merge_into
  Names-merge_into out [] h = inl h
  Names-merge_into out ((j, v) ∷ m) h =
      ground (arith, Names-merge_into (insert j v out) m h, Names-insert j v out)

  Names-merge_headers : (a b : Dict String) → Names (merge_headers a b) → Names a ⊎ Names b
  unfolding merge_headers
  Names-merge_headers a b h =
      ground (arith, Names-merge_into (merge_into [] a) b h, Names-merge_into [] a)

-- A configured header of the backend or the tenant, or one of these parameters, has this name.
abbrev pub Overrides : Env → Tenant → Dict String → String → Type 0
Overrides env t params k =
    Names env k t.backend.headers ⊎ (Names env k t.headers ⊎ Names env k params)

-- The request has the tenant's credential in the backend's credential header; or there is no
-- credential, or that header is overridden.
pub data HasCredential (env : Env) (t : Tenant) (params : Dict String) (o : Outgoing) : Type 0 where
  carried :
      lookup (env.canonical t.backend.credential_header) o.headers
        ≡ some (credential_value t.backend (effective_credential t))
      → HasCredential env t params o
  no_credential : effective_credential t ≡ "" → HasCredential env t params o
  other_header :
      Overrides env t params (env.canonical t.backend.credential_header)
      → HasCredential env t params o

-- The request has the session id in its session header; or there is none, or the backend is
-- stateless, or that header is overridden, or is the one for credentials.
pub data HasSession (env : Env) (t : Tenant) (params : Dict String) (sid : String) (o : Outgoing)
    : Type 0 where
  in_header :
      lookup (env.canonical mcp_session_header) o.headers ≡ some sid → HasSession env t params sid o
  no_session : sid ≡ "" → HasSession env t params sid o
  no_sessions : stateless t.backend ≡ true → HasSession env t params sid o
  other_session :
      Overrides env t params (env.canonical mcp_session_header) → HasSession env t params sid o
  as_credential :
      env.canonical t.backend.credential_header ≡ env.canonical mcp_session_header
      → HasSession env t params sid o

-- What is laid over a request: nothing, or the tenant's headers with these parameters.
abbrev pub Laid : Tenant → Dict String → Dict String → Type 0
Laid t params extra = (extra ≡ []) ⊎ (extra ≡ merge_headers t.headers params)

module _ (env : Env) (t : Tenant) (params : Dict String) where
  Laid-Overrides :
      (k : String) (extra : Dict String)
      → Laid t params extra
      → Names env k extra
      → Overrides env t params k
  Laid-Overrides k extra (inl e) h = elim (rw e at h) [ ]
  Laid-Overrides k extra (inr e) h = inr (Names-merge_headers env k t.headers params (rw e at h))

  -- A header of the request is overridden, or is as the credential and the base headers have it.
  apply_auth-cases :
      (k : String) (extra h : Dict String)
      → Laid t params extra
      → Overrides env t params k
        ⊎ (lookup k (apply_auth env t.backend (effective_credential t) extra h)
            ≡ or_else (credential_header env k t.backend (effective_credential t)) (lookup k h))
  apply_auth-cases k extra h laid =
      let found = apply_auth_lem env t.backend (effective_credential t) extra h k in
      elim (Option-cases (latest env k extra)) [
        | inr (v, e) ↦ inl (Laid-Overrides k extra laid (latest-Names env k extra v e))
        | inl e ↦ elim (Option-cases (latest env k t.backend.headers)) [
          | inr (v, q) ↦ inl (inl (latest-Names env k t.backend.headers v q))
          | inl q ↦ inr (found ∙ rw (e, q) refl)
        ]
      ]

  credential_header_set :
      (effective_credential t ≡ "")
      ⊎ (credential_header env
            (env.canonical t.backend.credential_header)
            t.backend
            (effective_credential t)
          ≡ some (credential_value t.backend (effective_credential t)))
  credential_header_set =
      let k = env.canonical t.backend.credential_header in
      ground (arith, eq_iff (effective_credential t) "", eq_iff k k)

  credential_header_unset :
      (k : String)
      → (env.canonical t.backend.credential_header ≡ k)
        ⊎ (credential_header env k t.backend (effective_credential t) ≡ none)
  credential_header_unset k = ground (arith, eq_iff (env.canonical t.backend.credential_header) k)

  base_headers-session :
      (sid m n : String)
      → (sid ≡ "")
        ⊎ ((stateless t.backend ≡ true)
            ⊎ (lookup (env.canonical mcp_session_header) (base_headers env t.backend sid m n)
                ≡ some sid))
  base_headers-session sid m n = elim (Bool-cases (sid == "")) [
    | inl e ↦ inl ((eq_iff sid "").0 e)
    | inr e ↦ elim (Bool-cases (stateless t.backend)) [
      | inl q ↦ inr (inl q)
      | inr q ↦
          let k = env.canonical mcp_session_header in
          inr (
            inr (
              unfold base_headers in
              rw (q, e) (lookup-insert k k sid _ ∙ rw ((eq_iff k k).1 refl) refl)))
    ]
  ]

  module _ (payload : RpcRequest) (sid : String) (extra : Dict String) (m n : String)
      (laid : Laid t params extra) where
    abbrev sent : Outgoing
    sent = post_request env t.backend payload sid (effective_credential t) extra m n

    pub post_request-HasCredential : HasCredential env t params sent
    unfolding post_request
    post_request-HasCredential =
        let k = env.canonical t.backend.credential_header in
        elim (apply_auth-cases k extra (base_headers env t.backend sid m n) laid) [
          | inl over ↦ other_header over
          | inr found ↦ elim credential_header_set [
            | inl c ↦ no_credential c
            | inr c ↦ carried (found ∙ rw c refl)
          ]
        ]

    pub post_request-HasSession : HasSession env t params sid sent
    unfolding post_request
    post_request-HasSession =
        let k = env.canonical mcp_session_header in
        elim (apply_auth-cases k extra (base_headers env t.backend sid m n) laid) [
          | inl over ↦ other_session over
          | inr found ↦ elim (credential_header_unset k) [
            | inl same ↦ as_credential same
            | inr unset ↦ elim (base_headers-session sid m n) [
              | inl e ↦ no_session e
              | inr (inl e) ↦ no_sessions e
              | inr (inr e) ↦ in_header (found ∙ rw (unset, e) refl)
            ]
          ]
        ]

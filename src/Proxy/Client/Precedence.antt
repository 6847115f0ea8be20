-- ===== src/Proxy/Client/Precedence.antt =====
-- `applyAuth`: which of the headers that it is given wins.
use mt_mcp_proxy.Base.{
  String, ◌≡◌, refl, sym, ◌∙◌, ap, inl, inr, not, Option, none, some, [], ◌∷◌, ◌==◌, if◌then◌else◌,
  Bool-cases,
}
use mt_mcp_proxy.Base.Dict.{Dict, lookup, insert, lookup-insert}
use mt_mcp_proxy.Registry.{Backend}
use mt_mcp_proxy.Proxy.ParamHeaders.Laws.{or_else}
use mt_mcp_proxy.Proxy.World.{Env}
use mt_mcp_proxy.Proxy.Client.{set_headers, apply_auth, credential_value}

-- The value of the last entry whose name has this canonical form.
unfoldable pub latest : Env → String → Dict String → Option String
latest env k [] = none
latest env k ((j, v) ∷ m) = or_else (latest env k m) (if env.canonical j == k then some v else none)

or_else_assoc : (a b c : Option String) → or_else (or_else a b) c ≡ or_else a (or_else b c)
or_else_assoc none b c = refl
or_else_assoc (some v) b c = refl

or_else-if :
    (k j v : String) (o : Option String)
    → (if j == k then some v else o) ≡ or_else (if j == k then some v else none) o
or_else-if k j v o = elim (Bool-cases (j == k)) [ inl e ↦ rw e refl | inr e ↦ rw e refl ]

lookup-set_headers :
    (env : Env) (k : String) (m h : Dict String)
    → lookup k (set_headers env m h) ≡ or_else (latest env k m) (lookup k h)
unfolding set_headers latest
lookup-set_headers env k [] h = refl
lookup-set_headers env k ((j, v) ∷ m) h =
    lookup-set_headers env k m (insert (env.canonical j) v h)
    ∙ ap (or_else (latest env k m))
        (lookup-insert (env.canonical j) k v h ∙ or_else-if k (env.canonical j) v (lookup k h))
    ∙ sym (
        or_else_assoc (latest env k m) (if env.canonical j == k then some v else none) (lookup k h))

-- The header that carries the credential, if there is one.
abbrev pub credential_header : Env → String → Backend → String → Option String
credential_header env k b credential =
    if not (credential == "")
    then (if env.canonical b.credential_header == k
        then some (credential_value b credential)
        else none)
    else none

-- A header of what `applyAuth` leaves comes from the headers of the call (of the tenant and the
-- parameters), where these have none from the headers of the backend, then from the credential,
-- and at last from what was there before; among names with one canonical form the last entry
-- counts.
pub apply_auth_lem :
    (env : Env) (b : Backend) (credential : String) (extra h : Dict String) (k : String)
    → lookup k (apply_auth env b credential extra h)
      ≡ or_else (latest env k extra) (
          or_else
            (latest env k b.headers)
            (or_else (credential_header env k b credential) (lookup k h)))
unfolding apply_auth
apply_auth_lem env b credential extra h k = elim (Bool-cases (credential == "")) [
  | inl e ↦ rw e (
      lookup-set_headers env k extra _
      ∙ ap (or_else (latest env k extra)) (lookup-set_headers env k b.headers h))
  | inr e ↦ rw e (
      lookup-set_headers env k extra _
      ∙ ap (or_else (latest env k extra)) (
          lookup-set_headers env k b.headers _
          ∙ ap (or_else (latest env k b.headers)) (
              lookup-insert (env.canonical b.credential_header) k (credential_value b credential) h
              ∙ or_else-if k (env.canonical b.credential_header) (credential_value b credential)
                  (lookup k h))))
]

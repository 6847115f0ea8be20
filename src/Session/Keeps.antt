-- ===== src/Session/Keeps.antt =====
-- No operation but `SetBackendSID` gives a session a backend session id.
use mt_mcp_proxy.Base.{
  ℕ, String, ◌≡◌, refl, sym, eq_refl, subst, ◌∙◌, ◌⊎◌, inl, inr, Option, none, some, ◌==◌, arith,
  eq_iff, Bool-cases, Option-cases,
}
use mt_mcp_proxy.Base.Dict.{lookup, insert, lookup-insert, IsNodup}
use mt_mcp_proxy.Session.{
  Session, Store, mint, get, set_backend_sid, backend_sid_of, delete_session,
}
use mt_mcp_proxy.Session.Operations.{
  live, seen_at, get_lem, mint_lem, set_backend_sid_lem, delete_session_lem,
}

-- Every session of the second store maps tenants as the session with its id in the first one does.
abbrev pub Keeps : Store → Store → Type 0
Keeps s s' =
    (k : String) (sess : Session)
    → lookup k s'.m ≡ some sess
    → (old : Session) × (lookup k s.m ≡ some old) × (old.backend_sid ≡ sess.backend_sid)

live-some :
    (now : ℕ) (s : Store) (k : String) (sess : Session)
    → live now s k ≡ some sess
    → lookup k s.m ≡ some sess
live-some now s k sess h = elim (Option-cases (lookup k s.m)) [
  | inl e ↦ cc (rw e at h)
  | inr (x, e) ↦ e ∙ ground (arith, h, e)
]

seen_at-some :
    (now : ℕ) (o : Option Session) (sess : Session)
    → seen_at now o ≡ some sess
    → (old : Session) × (o ≡ some old) × (old.backend_sid ≡ sess.backend_sid)
seen_at-some now none sess h = cc
seen_at-some now (some x) sess h = (x, refl, ground arith)

pub get-Keeps : (id : String) (now : ℕ) (s : Store) → IsNodup s.m → Keeps s (get id now s).1
get-Keeps id now s n k sess h = elim (Bool-cases (id == k)) [
  | inl e ↦
      let (old, found, same) =
        seen_at-some now (live now s id) sess (ground (arith, (get_lem id k now s n).1)) in
      (
        old,
        subst (λ w. lookup w s.m ≡ some old) ((eq_iff id k).0 e) (live-some now s id old found),
        same,
      )
  | inr e ↦ (sess, live-some now s k sess (ground (arith, (get_lem id k now s n).1)), refl)
]

pub delete_session-Keeps : (id : String) (s : Store) → Keeps s (delete_session id s).1
delete_session-Keeps id s k sess h = (sess, ground (arith, (delete_session_lem id k s).1, h), refl)

-- A session after `Mint` is the new one, which maps nothing, or maps what it mapped before.
pub mint-Keeps :
    (id : String) (now : ℕ) (s : Store)
    → IsNodup s.m
    → (k : String) (sess : Session) → lookup k (mint id now s).1.m ≡ some sess
    → ((b : String) → backend_sid_of sess b ≡ none)
      ⊎ ((old : Session) × (lookup k s.m ≡ some old) × (old.backend_sid ≡ sess.backend_sid))
mint-Keeps id now s n k sess h =
    let (empty, left) = mint_lem id k now s n in
    elim (Bool-cases (id == k)) [
      | inl e ↦
          let same : (mint id now s).0 ≡ sess = ground (arith, left, h, e) in
          inl (subst (λ x. (b : String) → backend_sid_of x b ≡ none) same empty)
      | inr e ↦ inr (sess, live-some now s k sess (ground (arith, left, h, e)), refl)
    ]

-- An id that a session maps after `SetBackendSID` is the one that was set, or was there before.
pub set_backend_sid-origin :
    (proxy_sid id sid : String) (now : ℕ) (s : Store) (k : String) (sess : Session) (b x : String)
    → lookup k (set_backend_sid proxy_sid id sid now s).m ≡ some sess
    → backend_sid_of sess b ≡ some x
    → ((id ≡ b) × (sid ≡ x))
      ⊎ ((old : Session) × (lookup k s.m ≡ some old) × (backend_sid_of old b ≡ some x))
unfolding backend_sid_of
set_backend_sid-origin p id sid now s k sess b x h found = elim (Bool-cases (p == k)) [
  | inl e ↦ elim (Option-cases (lookup p s.m)) [
    | inl missing ↦ cc (rw (set_backend_sid_lem p id sid k now s, e, missing) at h)
    | inr (old, was) ↦
        let sids : insert id sid old.backend_sid ≡ sess.backend_sid =
          ground (arith, rw (set_backend_sid_lem p id sid k now s, e, was) at h) in
        let mapped : lookup b (insert id sid old.backend_sid) ≡ some x = rw sids found in
        elim (Bool-cases (id == b)) [
          | inl q ↦
              inl
                ((eq_iff id b).0 q, ground (arith, lookup-insert id b sid old.backend_sid, mapped))
          | inr q ↦ inr (
            old,
            subst (λ w. lookup w s.m ≡ some old) ((eq_iff p k).0 e) was,
            ground (arith, lookup-insert id b sid old.backend_sid, mapped),
          )
        ]
  ]
  | inr e ↦ inr (sess, rw (set_backend_sid_lem p id sid k now s, e) at h, found)
]

-- What `Get` returns stands in the store after it.
pub get-stored :
    (id : String) (now : ℕ) (s : Store)
    → IsNodup s.m
    → (sess : Session) → (get id now s).0 ≡ some sess
    → lookup id (get id now s).1.m ≡ some sess
get-stored id now s n sess h =
    let (returned, left) = get_lem id id now s n in left ∙ rw (eq_refl id) (sym returned ∙ h)

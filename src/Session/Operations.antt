-- ===== src/Session/Operations.antt =====
-- What each operation of the store returns and leaves.
use mt_mcp_proxy.Base.{
  ℕ, String, ◌≡◌, ◌≢◌, refl, ap, ◌∙◌, eq_refl, not, inl, inr, Option, none, some, ◌==◌, arith,
  eq_iff, if◌then◌else◌, Option-cases,
}
use mathlib.Core.Option
use mt_mcp_proxy.Base.Dict.{
  lookup, insert, lookup-insert, lookup-delete, lookup-retain, retained, IsNodup,
}
use mt_mcp_proxy.Session.{
  Session, Store, is_idle, reap_locked, touch, mint, get, set_backend_sid, backend_sid_of,
  delete_session,
}

-- A session that is not idle; nothing is, where reaping is disabled.
abbrev pub live : ℕ → Store → String → Option Session
live now s id = retained (λ sess. not (is_idle now s.ttl sess)) (lookup id s.m)

pub lookup-reap_locked :
    (now : ℕ) (id : String) (s : Store)
    → IsNodup s.m
    → lookup id (reap_locked now s).m ≡ live now s id
unfolding reap_locked
lookup-reap_locked now id s h = lookup-retain _ id s.m h

abbrev pub seen_at : ℕ → Option Session → Option Session
seen_at now none = none
seen_at now (some sess) = some (record sess { last_seen = now })

touch_lem :
    (now : ℕ) (id j : String) (o : Option Session) (s : Store)
    → lookup id s.m ≡ o
    → ((touch now id o s).0 ≡ seen_at now o)
      × (lookup j (touch now id o s).1.m ≡ (if id == j then seen_at now o else lookup j s.m))
unfolding touch
touch_lem now id j none s e = (refl, ground (arith, eq_iff id j))
touch_lem now id j (some sess) s e =
    (refl, lookup-insert id j (record sess { last_seen = now }) s.m)

-- Where no id stands twice, `Get` returns the session with that id if there is one that is not
-- idle, with its last-seen time set to now, and nothing otherwise. It leaves that session under
-- its id, and under every other id what is not idle.
pub get_lem :
    (id j : String) (now : ℕ) (s : Store)
    → IsNodup s.m
    → ((get id now s).0 ≡ seen_at now (live now s id))
      × (lookup j (get id now s).1.m
          ≡ (if id == j then seen_at now (live now s id) else live now s j))
unfolding get
get_lem id j now s h =
    let (returned, left) =
      touch_lem now id j (live now s id) (reap_locked now s) (lookup-reap_locked now id s h) in
    rw (lookup-reap_locked now id s h) (returned, left ∙ rw (lookup-reap_locked now j s h))

-- Where no id stands twice, `Mint` returns a session that maps no tenant yet, and leaves it under
-- the new id, and under every other id what is not idle.
pub mint_lem :
    (id j : String) (now : ℕ) (s : Store)
    → IsNodup s.m
    → ((b : String) → backend_sid_of (mint id now s).0 b ≡ none)
      × (lookup j (mint id now s).1.m ≡ (if id == j then some (mint id now s).0 else live now s j))
unfolding mint backend_sid_of lookup
mint_lem id j now s h = (
  (λ b. refl),
  lookup-insert id j (mint id now s).0 (reap_locked now s).m ∙ rw (lookup-reap_locked now j s h),
)

abbrev pub with_sid : ℕ → String → String → Option Session → Option Session
with_sid now b sid none = none
with_sid now b sid (some sess) =
    some (record sess { backend_sid = insert b sid sess.backend_sid; last_seen = now })

pub set_backend_sid_lem :
    (id b sid j : String) (now : ℕ) (s : Store)
    → lookup j (set_backend_sid id b sid now s).m
      ≡ (if id == j then with_sid now b sid (lookup id s.m) else lookup j s.m)
unfolding set_backend_sid
set_backend_sid_lem id b sid j now s = elim (Option-cases (lookup id s.m)) [
  | inl e ↦ rw (e, set_backend_sid) (ground (arith, eq_iff id j))
  | inr (sess, e) ↦ rw (e, set_backend_sid) (lookup-insert id j _ s.m)
]

-- After `SetBackendSID` for a known session, that session maps the tenant to the id that was set,
-- and every other tenant as before; the other sessions are as before.
pub backend_sid_of-set_backend_sid :
    (id b sid : String) (now : ℕ) (s : Store) (sess : Session)
    → lookup id s.m ≡ some sess
    → ((c : String)
        → Option.map (λ x. backend_sid_of x c) (lookup id (set_backend_sid id b sid now s).m)
          ≡ some (if b == c then some sid else backend_sid_of sess c))
      × ((j : String) → j ≢ id → lookup j (set_backend_sid id b sid now s).m ≡ lookup j s.m)
unfolding backend_sid_of
backend_sid_of-set_backend_sid id b sid now s sess h = (
  (λ c.
      rw (set_backend_sid_lem id b sid id now s, eq_refl id, h)
        (ap some (lookup-insert b c sid sess.backend_sid))),
  (λ j n. rw (set_backend_sid_lem id b sid j now s) (ground (arith, eq_iff id j))),
)

-- `Delete` returns the session with that id, idle or not, and leaves all but that one.
pub delete_session_lem :
    (id j : String) (s : Store)
    → ((delete_session id s).0 ≡ lookup id s.m)
      × (lookup j (delete_session id s).1.m ≡ (if id == j then none else lookup j s.m))
unfolding delete_session
delete_session_lem id j s = elim (Option-cases (lookup id s.m)) [
  | inl e ↦ rw (e, delete_session) (refl, ground (arith, eq_iff id j))
  | inr (sess, e) ↦ rw (e, delete_session) (refl, lookup-delete id j s.m)
]

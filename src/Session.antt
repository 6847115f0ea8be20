-- ===== src/Session.antt =====
-- internal/session/session.go: the client-facing sessions and the backend session ids that they
-- map to. Each operation holds the store's lock, so it is one step, and the time is its argument.
-- `Mint` and `Get` read the clock twice, when they reap and after it; here both readings are the
-- same time. The random id of `newID` is the argument of `mint`.
pub mod Invariant
pub mod Operations
pub mod Expiry
pub mod Keeps
pub mod Size
mod Tests
use mt_mcp_proxy.Base.{
  ℕ, zero, suc, ◌+◌, String, Bool, true, false, not, Option, none, some, List, [], ◌∷◌,
  if◌then◌else◌, ltb, length,
}
use mt_mcp_proxy.Base.Dict.{Dict, lookup, insert, delete, retain}

-- The values of `mcp-session-id` that a session holds, by tenant id.
pub record Session : Type 0 where
  pub id : String
  pub created : ℕ
  pub last_seen : ℕ
  pub backend_sid : Dict String

-- `time.Duration` is signed: `neg n` is -(n + 1).
pub data Duration : Type 0 where
  pos : ℕ → Duration
  neg : ℕ → Duration

pub record Store : Type 0 where
  pub m : Dict Session
  pub ttl : Duration

unfoldable pub backend_sid_of : Session → String → Option String
backend_sid_of s backend = lookup backend s.backend_sid

unfoldable pub new_store : Duration → Store
new_store idle_ttl = record { m = []; ttl = idle_ttl }

-- `sess.lastSeen.Before(now.Add(-ttl))`, for a positive ttl
unfoldable pub is_idle : ℕ → Duration → Session → Bool
is_idle now (neg n) sess = false
is_idle now (pos zero) sess = false
is_idle now (pos (suc n)) sess = ltb (sess.last_seen + suc n) now

-- `ttl <= 0` disables reaping: then no session is idle.
unfoldable pub reap_locked : ℕ → Store → Store
unfolding is_idle
reap_locked now s = record s { m = retain (λ sess. not (is_idle now s.ttl sess)) s.m }

unfoldable pub mint : String → ℕ → Store → Session × Store
unfolding reap_locked
mint new_id now s =
    let sess : Session = record { id = new_id; created = now; last_seen = now; backend_sid = [] } in
    let s' = reap_locked now s in (sess, record s' { m = insert sess.id sess s'.m })

-- The session is shared with the store, so what `Get` returns has the refreshed time too.
touch : ℕ → String → Option Session → Store → Option Session × Store
touch now id none s = (none, s)
touch now id (some sess) s =
    let seen : Session = record sess { last_seen = now } in
    (some seen, record s { m = insert id seen s.m })

unfoldable pub get : String → ℕ → Store → Option Session × Store
unfolding reap_locked touch
get id now s = let s' = reap_locked now s in touch now id (lookup id s'.m) s'

unfoldable pub set_backend_sid : String → String → String → ℕ → Store → Store
set_backend_sid proxy_sid backend sid now s = elim (lookup proxy_sid s.m) [
  | none ↦ s
  | some sess ↦ record s {
    m =
        insert proxy_sid
          (record sess { backend_sid = insert backend sid sess.backend_sid; last_seen = now }) s.m;
  }
]

-- The name `delete` is the map's.
unfoldable pub delete_session : String → Store → Option Session × Store
delete_session id s = elim (lookup id s.m) [
  | none ↦ (none, s)
  | some sess ↦ (some sess, record s { m = delete id s.m })
]

unfoldable pub len : ℕ → Store → ℕ × Store
unfolding reap_locked
len now s = let s' = reap_locked now s in (length s'.m, s')

-- The calls that a client of the store can make.
pub data Call : Type 0 where
  mints : String → Call
  gets : String → Call
  sets : String → String → String → Call
  deletes : String → Call
  counts : Call

pub step : ℕ → Call → Store → Store
unfolding mint get set_backend_sid delete_session len
step now (mints id) s = (mint id now s).1
step now (gets id) s = (get id now s).1
step now (sets id backend sid) s = set_backend_sid id backend sid now s
step now (deletes id) s = (delete_session id s).1
step now counts s = (len now s).1

pub run : List (ℕ × Call) → Store → Store
unfolding step
run [] s = s
run ((now, c) ∷ cs) s = run cs (step now c s)

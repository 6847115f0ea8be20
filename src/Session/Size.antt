-- ===== src/Session/Size.antt =====
-- internal/session/session.go: how many sessions each operation leaves.
use native.Mathlib.Nat.{le_trans, le_refl}
use mt_mcp_proxy.Base.{
  ℕ, ◌+◌, ◌≤◌, String, Bool, ◌≡◌, inl, inr, some, [], ◌∷◌, not, arith, length, Option-cases,
}
use mt_mcp_proxy.Base.Dict.{Dict, lookup, insert, delete, retain}
use mt_mcp_proxy.Session.{
  Store, is_idle, reap_locked, touch, mint, get, set_backend_sid, delete_session,
}

module _ {ℓ} {V : Type ℓ} where
  length-insert : (k : String) (v : V) (m : Dict V) → length (insert k v m) ≤ length m + 1
  unfolding insert
  length-insert k v [] = omega arith
  length-insert k v ((j, w) ∷ m) = ground (arith, length-insert k v m)

  length-insert-some :
      (k : String) (v w : V) (m : Dict V) → lookup k m ≡ some w → length (insert k v m) ≡ length m
  unfolding insert lookup
  length-insert-some k v w [] h = cc h
  length-insert-some k v w ((j, x) ∷ m) h = ground (arith, length-insert-some k v w m)

  length-delete : (k : String) (m : Dict V) → length (delete k m) ≤ length m
  unfolding delete
  length-delete k [] = omega arith
  length-delete k ((j, w) ∷ m) = ground (arith, length-delete k m)

  length-retain : (p : V → Bool) (m : Dict V) → length (retain p m) ≤ length m
  unfolding retain
  length-retain p [] = omega arith
  length-retain p ((j, w) ∷ m) = ground (arith, length-retain p m)

abbrev pub size : Store → ℕ
size s = length s.m

length-reap_locked : (now : ℕ) (s : Store) → size (reap_locked now s) ≤ size s
unfolding reap_locked
length-reap_locked now s = length-retain (λ sess. not (is_idle now s.ttl sess)) s.m

pub length-mint : (id : String) (now : ℕ) (s : Store) → size (mint id now s).1 ≤ size s + 1
unfolding mint
length-mint id now s =
    let inserted = length-insert id (mint id now s).0 (reap_locked now s).m in
    ground (arith, inserted, length-reap_locked now s)

length-touch :
    (now : ℕ) (id : String) (s : Store) → size (touch now id (lookup id s.m) s).1 ≤ size s
length-touch now id s = elim (Option-cases (lookup id s.m)) [
  | inl e ↦ unfold touch in rw e (le_refl (size s))
  | inr (sess, e) ↦
      unfold touch in
      rw e (
        let same = length-insert-some id (record sess { last_seen = now }) sess s.m e in
        omega (arith, same))
]

pub length-get : (id : String) (now : ℕ) (s : Store) → size (get id now s).1 ≤ size s
unfolding get
length-get id now s = le_trans (length-touch now id (reap_locked now s)) (length-reap_locked now s)

pub length-set_backend_sid :
    (id backend sid : String) (now : ℕ) (s : Store)
    → size (set_backend_sid id backend sid now s) ≤ size s
length-set_backend_sid id backend sid now s = elim (Option-cases (lookup id s.m)) [
  | inl e ↦ unfold set_backend_sid in rw (e, set_backend_sid) (le_refl (size s))
  | inr (sess, e) ↦
      unfold set_backend_sid in
      rw (e, set_backend_sid)
        (let same =
            length-insert-some id
              (record sess { backend_sid = insert backend sid sess.backend_sid; last_seen = now })
              sess s.m e in
          omega (arith, same))
]

pub length-delete_session : (id : String) (s : Store) → size (delete_session id s).1 ≤ size s
length-delete_session id s = elim (Option-cases (lookup id s.m)) [
  | inl e ↦ unfold delete_session in rw (e, delete_session) (le_refl (size s))
  | inr (sess, e) ↦ unfold delete_session in rw (e, delete_session) (length-delete id s.m)
]

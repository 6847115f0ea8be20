-- ===== src/Session/Invariant.antt =====
-- The well-formedness of the store, kept by every call.
use mt_mcp_proxy.Base.{
  ℕ, ◌≤◌, String, ◌≡◌, refl, not, inl, inr, Option, none, some, List, [], ◌∷◌, ◌==◌, arith, eq_iff,
  Bool-cases, Option-cases,
}
use mt_mcp_proxy.Base.Dict.{
  lookup, insert, delete, IsNodup, lookup-insert, lookup-delete, lookup-retain, insert-IsNodup,
  delete-IsNodup, retain-IsNodup,
}
use mt_mcp_proxy.Session.{
  Session, Duration, Store, new_store, is_idle, reap_locked, touch, mint, get, set_backend_sid,
  delete_session, Call, mints, gets, sets, deletes, counts, step, run,
}

-- A session stands under its own id, and its times are in order.
pub record IsSound (now : ℕ) (k : String) (sess : Session) : Type 0 where
  pub own : sess.id ≡ k
  pub order : sess.created ≤ sess.last_seen
  pub past : sess.last_seen ≤ now

pub record IsValid (now : ℕ) (s : Store) : Type 0 where
  pub nodup : IsNodup s.m
  pub sound : (k : String) (sess : Session) → lookup k s.m ≡ some sess → IsSound now k sess

reap_locked-IsValid : (now t : ℕ) (s : Store) → IsValid now s → IsValid now (reap_locked t s)
unfolding reap_locked
reap_locked-IsValid now t s v = record {
  nodup = retain-IsNodup _ s.m v.nodup;
  sound = λ k sess h.
      v.sound k sess (ground (arith, lookup-retain (λ x. not (is_idle t s.ttl x)) k s.m v.nodup));
}

insert-IsValid :
    (now : ℕ) (k : String) (sess : Session) (s : Store)
    → IsSound now k sess
    → IsValid now s
    → IsValid now (record s { m = insert k sess s.m })
insert-IsValid now k sess s h v = record {
  nodup = insert-IsNodup k sess s.m v.nodup;
  sound = λ j other e. elim (Bool-cases (k == j)) [
    | inl same ↦ ground (arith, eq_iff k j, lookup-insert k j sess s.m)
    | inr differ ↦ v.sound j other (ground (arith, lookup-insert k j sess s.m))
  ];
}

delete-IsValid :
    (now : ℕ) (k : String) (s : Store) → IsValid now s → IsValid now (record s { m = delete k s.m })
delete-IsValid now k s v = record {
  nodup = delete-IsNodup k s.m v.nodup;
  sound = λ j other e. v.sound j other (ground (arith, lookup-delete k j s.m));
}

pub IsValid-later : (now t : ℕ) (s : Store) → now ≤ t → IsValid now s → IsValid t s
IsValid-later now t s h v = record {
  nodup = v.nodup;
  sound = λ k sess e. ground (arith, v.sound k sess e);
}

pub mint-IsValid :
    (now : ℕ) (id : String) (s : Store) → IsValid now s → IsValid now (mint id now s).1
unfolding mint
mint-IsValid now id s v =
    insert-IsValid now id _ (reap_locked now s) (ground arith) (reap_locked-IsValid now now s v)

touch-IsValid :
    (now : ℕ) (id : String) (o : Option Session) (s : Store)
    → lookup id s.m ≡ o
    → IsValid now s
    → IsValid now (touch now id o s).1
unfolding touch
touch-IsValid now id none s e v = v
touch-IsValid now id (some sess) s e v =
    insert-IsValid now id _ s (ground (arith, v.sound id sess e)) v

pub get-IsValid : (now : ℕ) (id : String) (s : Store) → IsValid now s → IsValid now (get id now s).1
unfolding get
get-IsValid now id s v =
    touch-IsValid now id (lookup id (reap_locked now s).m) (reap_locked now s) refl
      (reap_locked-IsValid now now s v)

pub set_backend_sid-IsValid :
    (now : ℕ) (id b sid : String) (s : Store)
    → IsValid now s
    → IsValid now (set_backend_sid id b sid now s)
unfolding set_backend_sid
set_backend_sid-IsValid now id b sid s v = elim (Option-cases (lookup id s.m)) [
  | inl e ↦ rw (e, set_backend_sid) v
  | inr (sess, e) ↦
      rw (e, set_backend_sid) (insert-IsValid now id _ s (ground (arith, v.sound id sess e)) v)
]

pub delete_session-IsValid :
    (now : ℕ) (id : String) (s : Store) → IsValid now s → IsValid now (delete_session id s).1
unfolding delete_session
delete_session-IsValid now id s v = elim (Option-cases (lookup id s.m)) [
  | inl e ↦ rw (e, delete_session) v
  | inr (sess, e) ↦ rw (e, delete_session) (delete-IsValid now id s v)
]

-- Every call keeps the store well-formed: no id stands twice, each session stands under its own
-- id, and was created before it was last seen, which lies in the past.
pub step-IsValid : (now : ℕ) (c : Call) (s : Store) → IsValid now s → IsValid now (step now c s)
unfolding step
step-IsValid now (mints id) s v = mint-IsValid now id s v
step-IsValid now (gets id) s v = get-IsValid now id s v
step-IsValid now (sets id b sid) s v = set_backend_sid-IsValid now id b sid s v
step-IsValid now (deletes id) s v = delete_session-IsValid now id s v
step-IsValid now counts s v = reap_locked-IsValid now now s v

-- The times of the calls do not go back, and none lies before `now`.
abbrev pub InOrder : ℕ → List (ℕ × Call) → Type 0
InOrder now [] = Unit
InOrder now ((t, c) ∷ cs) = (now ≤ t) × InOrder t cs

abbrev pub end_time : ℕ → List (ℕ × Call) → ℕ
end_time now [] = now
end_time now ((t, c) ∷ cs) = end_time t cs

-- Whatever the calls, in the order of their times, a well-formed store stays well-formed.
pub run-IsValid :
    (now : ℕ) (cs : List (ℕ × Call)) (s : Store)
    → InOrder now cs
    → IsValid now s
    → IsValid (end_time now cs) (run cs s)
unfolding run
run-IsValid now [] s h v = v
run-IsValid now ((t, c) ∷ cs) s (le, h) v =
    run-IsValid t cs (step t c s) h (step-IsValid t c s (IsValid-later now t s le v))

pub new_store-IsValid : (now : ℕ) (d : Duration) → IsValid now (new_store d)
unfolding new_store lookup
new_store-IsValid now d = record { nodup = tt; sound = λ k sess h. cc }

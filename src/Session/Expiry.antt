-- ===== src/Session/Expiry.antt =====
-- How long a session lives.
use mt_mcp_proxy.Base.{
  ℕ, zero, suc, ◌+◌, ◌≤◌, String, ◌≡◌, ◌≢◌, refl, sym, subst, ◌∙◌, eq_refl, false, inl, inr, some,
  List, [], ◌∷◌, ◌==◌, arith, eq_iff, Bool-cases,
}
use mt_mcp_proxy.Base.Dict.{Dict, lookup, IsNodup}
use mt_mcp_proxy.Session.{
  Session, Duration, pos, neg, Store, is_idle, reap_locked, touch, mint, get, set_backend_sid,
  delete_session, len, Call, mints, gets, sets, deletes, counts, step, run,
}
use mt_mcp_proxy.Session.Invariant.{IsValid, IsValid-later, InOrder, step-IsValid}
use mt_mcp_proxy.Session.Operations.{
  live, lookup-reap_locked, get_lem, mint_lem, set_backend_sid_lem, delete_session_lem,
}

ttl-step : (t : ℕ) (c : Call) (s : Store) → (step t c s).ttl ≡ s.ttl
unfolding step mint get touch reap_locked set_backend_sid delete_session len
ttl-step t (mints id) s = refl
ttl-step t (gets id) s = ground arith
ttl-step t (sets id b sid) s = ground arith
ttl-step t (deletes id) s = ground arith
ttl-step t counts s = refl

-- The call does not make, map or delete the session with this id; it may get it.
abbrev pub Spares : String → Call → Type 0
Spares id (mints k) = k ≢ id
Spares id (gets k) = Unit
Spares id (sets k b sid) = k ≢ id
Spares id (deletes k) = k ≢ id
Spares id counts = Unit

-- The session is there, maps what it mapped, and was seen no earlier than at `seen`.
record Lives (id : String) (seen : ℕ) (sids : Dict String) (s : Store) : Type 0 where
  sess : Session
  found : lookup id s.m ≡ some sess
  same : sess.backend_sid ≡ sids
  later : seen ≤ sess.last_seen

-- `t` is no later than the time to live after `seen`.
abbrev pub InTime : ℕ → Duration → ℕ → Type 0
InTime seen (neg n) t = Unit
InTime seen (pos zero) t = Unit
InTime seen (pos (suc n)) t = t ≤ seen + suc n

-- Each call comes in time and spares the session.
abbrev pub InWindow : String → ℕ → Duration → List (ℕ × Call) → Type 0
InWindow id seen d [] = Unit
InWindow id seen d ((t, c) ∷ cs) = InTime seen d t × Spares id c × InWindow id seen d cs

not_idle :
    (seen t : ℕ) (d : Duration) (sess : Session)
    → InTime seen d t
    → seen ≤ sess.last_seen
    → is_idle t d sess ≡ false
unfolding is_idle
not_idle seen t (neg n) sess h le = refl
not_idle seen t (pos zero) sess h le = refl
not_idle seen t (pos (suc n)) sess h le = ground arith

module _ (id : String) (seen : ℕ) (sids : Dict String) where
  live_of_Lives :
      (t : ℕ) (s : Store) (l : Lives id seen sids s)
      → InTime seen s.ttl t
      → live t s id ≡ some l.sess
  live_of_Lives t s l h = rw (l.found, not_idle seen t s.ttl l.sess h l.later)

  step-Lives :
      (t : ℕ) (c : Call) (s : Store)
      → IsNodup s.m
      → seen ≤ t
      → InTime seen s.ttl t
      → Spares id c
      → Lives id seen sids s
      → Lives id seen sids (step t c s)
  unfolding step
  step-Lives t (mints k) s n le h spare l = record {
    sess = l.sess;
    found = (mint_lem k id t s n).1 ∙ ground (arith, eq_iff k id, live_of_Lives t s l h);
    same = l.same;
    later = l.later;
  }
  step-Lives t (gets k) s n le h spare l = elim (Bool-cases (k == id)) [
    | inl e ↦ record {
      sess = record l.sess { last_seen = t };
      found =
          subst (λ w. lookup id (get w t s).1.m ≡ some (record l.sess { last_seen = t }))
            (sym ((eq_iff k id).0 e))
            ((get_lem id id t s n).1 ∙ rw (eq_refl id, live_of_Lives t s l h));
      same = l.same;
      later = le;
    }
    | inr e ↦ record {
      sess = l.sess;
      found = (get_lem k id t s n).1 ∙ rw (e, live_of_Lives t s l h);
      same = l.same;
      later = l.later;
    }
  ]
  step-Lives t (sets k b sid) s n le h spare l = record {
    sess = l.sess;
    found = set_backend_sid_lem k b sid id t s ∙ ground (arith, eq_iff k id, l.found);
    same = l.same;
    later = l.later;
  }
  step-Lives t (deletes k) s n le h spare l = record {
    sess = l.sess;
    found = (delete_session_lem k id s).1 ∙ ground (arith, eq_iff k id, l.found);
    same = l.same;
    later = l.later;
  }
  step-Lives t counts s n le h spare l = record {
    sess = l.sess;
    found = unfold len in lookup-reap_locked t id s n ∙ live_of_Lives t s l h;
    same = l.same;
    later = l.later;
  }

  run-Lives :
      (now : ℕ) (cs : List (ℕ × Call)) (s : Store)
      → IsValid now s
      → seen ≤ now
      → InOrder now cs
      → InWindow id seen s.ttl cs
      → Lives id seen sids s
      → Lives id seen sids (run cs s) × IsNodup (run cs s).m × ((run cs s).ttl ≡ s.ttl)
  unfolding run
  run-Lives now [] s v le o w l = (l, v.nodup, refl)
  run-Lives now ((t, c) ∷ cs) s v le (now_le, o) (h, spare, w) l =
      let later : seen ≤ t = omega arith in
      let (l', n, e) =
        run-Lives t cs (step t c s) (step-IsValid t c s (IsValid-later now t s now_le v)) later o
          (rw (ttl-step t c s) w) (step-Lives t c s v.nodup later h spare l) in
      (l', n, e ∙ ttl-step t c s)

-- A session of a well-formed store outlives any calls that do not make, map or delete its id, in
-- the order of their times, as long as no call and no reading lies more than the time to live
-- after it was last seen: `Get` then returns it, seen now, with the backend session ids it had.
pub get-run :
    (id : String) (now t : ℕ) (cs : List (ℕ × Call)) (s : Store) (sess : Session)
    → IsValid now s
    → lookup id s.m ≡ some sess
    → InOrder now cs
    → InWindow id sess.last_seen s.ttl cs
    → InTime sess.last_seen s.ttl t
    → (r : Session) × ((get id t (run cs s)).0 ≡ some r)
      × (r.backend_sid ≡ sess.backend_sid)
      × (r.last_seen ≡ t)
get-run id now t cs s sess v h o w ht =
    let (l, n, e) =
      run-Lives id sess.last_seen sess.backend_sid now cs s v (v.sound id sess h).past o w
        (record { sess = sess; found = h; same = refl; later = omega arith }) in
    (
      record l.sess { last_seen = t },
      (get_lem id id t (run cs s) n).0
          ∙ rw (live_of_Lives id sess.last_seen sess.backend_sid t (run cs s) l (rw e ht)),
      l.same,
      refl,
    )

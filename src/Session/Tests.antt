-- ===== src/Session/Tests.antt =====
-- A store with one client session that maps one tenant.
use mt_mcp_proxy.Base.{
  ℕ, ◌≡◌, refl, String, none, some, List, [], ◌∷◌, ◌==◌, if◌then◌else◌, ◌≢◌, arith, subst,
}
use mathlib.Core.Option
use mt_mcp_proxy.Base.Dict.{lookup, insert, retain}
use mt_mcp_proxy.Session.{
  Session, Store, pos, Call, mints, sets, deletes, counts, run, mint, get, set_backend_sid,
  new_store, backend_sid_of, reap_locked, is_idle,
}
use mt_mcp_proxy.Session.Invariant.{IsValid, end_time, run-IsValid, new_store-IsValid}
use mt_mcp_proxy.Session.Operations.{
  live, seen_at, get_lem, mint_lem, backend_sid_of-set_backend_sid,
}
use mt_mcp_proxy.Session.Expiry.{get-run}

abbrev calls : List (ℕ × Call)
calls = (100, mints "s-1") ∷ (101, sets "s-1" "acme" "b-7") ∷ (102, counts) ∷ []

abbrev sess : Session
sess = record { id = "s-1"; created = 100; last_seen = 101; backend_sid = ("acme", "b-7") ∷ [] }

abbrev one : Store
one = record { m = ("s-1", sess) ∷ []; ttl = pos 60 }

run-calls : run calls (new_store (pos 60)) ≡ one
unfolding run new_store reap_locked is_idle insert retain lookup
run-calls = refl

run-IsValid_example : IsValid (end_time 0 calls) (run calls (new_store (pos 60)))
run-IsValid_example =
    run-IsValid 0 calls (new_store (pos 60)) (omega arith, (omega arith, (omega arith, tt)))
      (new_store-IsValid 0 (pos 60))

one-IsValid : IsValid 102 one
one-IsValid = subst (IsValid 102) run-calls (
    run-IsValid 0 calls (new_store (pos 60)) (omega arith, (omega arith, (omega arith, tt)))
      (new_store-IsValid 0 (pos 60)))

one_found : lookup "s-1" one.m ≡ some sess
unfolding lookup
one_found = refl

get_lem_example :
    ((get "s-1" 150 one).0 ≡ seen_at 150 (live 150 one "s-1"))
    × (lookup "s-2" (get "s-1" 150 one).1.m
        ≡ (if "s-1" == "s-2" then seen_at 150 (live 150 one "s-1") else live 150 one "s-2"))
get_lem_example = get_lem "s-1" "s-2" 150 one one-IsValid.nodup

mint_lem_example :
    ((b : String) → backend_sid_of (mint "s-2" 150 one).0 b ≡ none)
    × (lookup "s-1" (mint "s-2" 150 one).1.m
        ≡ (if "s-2" == "s-1" then some (mint "s-2" 150 one).0 else live 150 one "s-1"))
mint_lem_example = mint_lem "s-2" "s-1" 150 one one-IsValid.nodup

backend_sid_of-set_backend_sid_example :
    ((c : String)
      → Option.map
          (λ x. backend_sid_of x c)
          (lookup "s-1" (set_backend_sid "s-1" "zeta" "b-8" 110 one).m)
        ≡ some (if "zeta" == c then some "b-8" else backend_sid_of sess c))
    × ((j : String)
        → j ≢ "s-1"
        → lookup j (set_backend_sid "s-1" "zeta" "b-8" 110 one).m ≡ lookup j one.m)
backend_sid_of-set_backend_sid_example =
    backend_sid_of-set_backend_sid "s-1" "zeta" "b-8" 110 one sess one_found

get-run_example :
    (r : Session) × ((get "s-1" 160 (run ((120, counts) ∷ (140, deletes "s-9") ∷ []) one)).0
      ≡ some r)
    × (r.backend_sid ≡ sess.backend_sid)
    × (r.last_seen ≡ 160)
get-run_example =
    get-run "s-1" 102 160 ((120, counts) ∷ (140, deletes "s-9") ∷ []) one sess one-IsValid one_found
      (omega arith, (omega arith, tt)) (omega arith, tt, (omega arith, (λ e. cc), tt)) (omega arith)

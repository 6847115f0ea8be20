-- ===== src/Proxy/Schema/Laws.antt =====
-- internal/proxy/schema.go: what `stripTenantArg` and `injectMeta` do to the params of a call.
use mt_mcp_proxy.Base.{
  String, ◌≡◌, ◌≢◌, refl, sym, ◌∙◌, ap, subst, inl, inr, ◌↔◌, Option, none, some, [], ◌∷◌, ◌==◌,
  eq_iff, Bool-cases, Option-cases, if◌then◌else◌,
}
use mt_mcp_proxy.Base.Dict.{
  Dict, IsNodup, lookup, insert, delete, has, lookup-insert, lookup-delete, insert-IsNodup,
  delete-IsNodup,
}
use mt_mcp_proxy.Json.{
  Json, null, bool, num, str, arr, obj, Fields, end, field, members, of_members, object,
  unmarshal_map,
}
use mt_mcp_proxy.Proxy.Schema.{
  tenant_arg, strip_tenant_arg, inject_meta, stateless_client_meta, member_of, strip_arguments,
}

-- The member of an object, as the decoder finds it.
abbrev pub member : String → Json → Option Json
member k v = member_of k (unmarshal_map v)

abbrev pub member_in : String → Option Json → Option Json
member_in k none = none
member_in k (some v) = member k v

-- An argument of the call with these params.
abbrev pub argument : String → Json → Option Json
argument k params = member_in k (member "arguments" params)

prepend-IsNodup :
    (k : String) (v : Json) (m : Dict Json)
    → IsNodup m
    → IsNodup (if has k m then m else (k, v) ∷ m)
unfolding has
prepend-IsNodup k v m h = elim (Option-cases (lookup k m)) [
  | inl e ↦ rw (e, has) (e, h)
  | inr (j, e) ↦ rw (e, has) h
]

pub members-IsNodup : (fs : Fields) → IsNodup (members fs)
members-IsNodup end = tt
members-IsNodup (field k v fs) = prepend-IsNodup k v (members fs) (members-IsNodup fs)

lookup-prepend :
    (k j : String) (v : Json) (m : Dict Json)
    → lookup k m ≡ none
    → lookup j (if has k m then m else (k, v) ∷ m) ≡ (if k == j then some v else lookup j m)
unfolding has lookup
lookup-prepend k j v m e = rw (e, has) refl

pub lookup-members :
    (k : String) (m : Dict Json) → IsNodup m → lookup k (members (of_members m)) ≡ lookup k m
unfolding lookup
lookup-members k [] h = refl
lookup-members k ((j, v) ∷ m) (fresh, h) =
    lookup-prepend j k v (members (of_members m)) (lookup-members j m h ∙ fresh)
    ∙ ap (λ o. if j == k then some v else o) (lookup-members k m h)

-- What an object that is marshalled from a map has as members.
member-object : (k : String) (m : Dict Json) → IsNodup m → member k (object m) ≡ lookup k m
member-object k m h = lookup-members k m h

member-insert :
    (k j : String) (v : Json) (m : Dict Json)
    → IsNodup m
    → member j (object (insert k v m)) ≡ (if k == j then some v else lookup j m)
member-insert k j v m h =
    member-object j (insert k v m) (insert-IsNodup k v m h) ∙ lookup-insert k j v m

-- What holds of params whose argument `tenant` is gone.
abbrev IsStripped : Json → Json → Type 0
IsStripped params out =
    (argument tenant_arg out ≡ none)
    × ((k : String) → k ≢ tenant_arg → argument k out ≡ argument k params)
    × ((k : String) → k ≢ "arguments" → member k out ≡ member k params)

same-IsStripped : (params : Json) → argument tenant_arg params ≡ none → IsStripped params params
same-IsStripped params e = (e, λ k n. refl, λ k n. refl)

some_eq : {a b : Json} → ◌≡◌ {A = Option Json} (some a) (some b) → a ≡ b
some_eq h = cc

absent_key : (j k : String) (x y : Option Json) → k ≢ j → (if j == k then x else y) ≡ y
absent_key j k x y n = elim (Bool-cases (j == k)) [
  | inl e ↦ absurd (n (sym ((eq_iff j k).0 e)))
  | inr e ↦ rw e refl
]

replaced-IsStripped :
    (fs args : Fields)
    → lookup "arguments" (members fs) ≡ some (obj args)
    → IsStripped
        (obj fs)
        (object (insert "arguments" (object (delete tenant_arg (members args))) (members fs)))
replaced-IsStripped fs args e =
    let clean = delete tenant_arg (members args) in
    let at = λ (j : String).
      member-insert "arguments" j (object clean) (members fs) (members-IsNodup fs) in
    let arg : (k : String)
        → argument k (object (insert "arguments" (object clean) (members fs)))
          ≡ (if tenant_arg == k then none else lookup k (members args)) =
      λ k.
        ap (member_in k) (at "arguments")
        ∙ member-object k clean (delete-IsNodup tenant_arg (members args) (members-IsNodup args))
        ∙ lookup-delete tenant_arg k (members args) in
    (
      arg tenant_arg,
      (λ k n.
          arg k
          ∙ absent_key tenant_arg k none (lookup k (members args)) n
          ∙ ap (member_in k) (sym e)),
      (λ k n. at k ∙ absent_key "arguments" k (some (object clean)) (lookup k (members fs)) n),
    )

strip_arguments-IsStripped :
    (fs : Fields) (o : Option Json)
    → lookup "arguments" (members fs) ≡ o
    → (out : Json) → strip_arguments (obj fs) (members fs) o ≡ some out
    → IsStripped (obj fs) out
unfolding has
strip_arguments-IsStripped fs none e out h =
    subst (IsStripped (obj fs)) (some_eq h) (same-IsStripped (obj fs) (ap (member_in tenant_arg) e))
strip_arguments-IsStripped fs (some null) e out h =
    subst (IsStripped (obj fs)) (some_eq h) (same-IsStripped (obj fs) (ap (member_in tenant_arg) e))
strip_arguments-IsStripped fs (some (obj args)) e out h =
    elim (Option-cases (lookup tenant_arg (members args))) [
      | inl q ↦
          subst (IsStripped (obj fs)) (some_eq (rw (q, has) at h))
            (same-IsStripped (obj fs) (ap (member_in tenant_arg) e ∙ q))
      | inr (v, q) ↦
          subst (IsStripped (obj fs)) (some_eq (rw (q, has) at h)) (replaced-IsStripped fs args e)
    ]
strip_arguments-IsStripped fs (some (bool b)) e out h = cc
strip_arguments-IsStripped fs (some (num n)) e out h = cc
strip_arguments-IsStripped fs (some (str s)) e out h = cc
strip_arguments-IsStripped fs (some (arr vs)) e out h = cc

-- If `stripTenantArg` succeeds, the member spelled `arguments` of what it returns has no `tenant`;
-- every other member of it, and every other member of the params, is as it was.
pub strip_tenant_arg_lem :
    (params out : Json)
    → strip_tenant_arg params ≡ some out
    → (argument tenant_arg out ≡ none)
      × ((k : String) → k ≢ tenant_arg → argument k out ≡ argument k params)
      × ((k : String) → k ≢ "arguments" → member k out ≡ member k params)
unfolding strip_tenant_arg
strip_tenant_arg_lem (obj fs) out h =
    strip_arguments-IsStripped fs (lookup "arguments" (members fs)) refl out h
strip_tenant_arg_lem null out h = subst (IsStripped null) (some_eq h) (same-IsStripped null refl)
strip_tenant_arg_lem (bool b) out h = cc
strip_tenant_arg_lem (num n) out h = cc
strip_tenant_arg_lem (str s) out h = cc
strip_tenant_arg_lem (arr vs) out h = cc

-- `injectMeta` panics on the literal `null`, and on nothing else.
pub inject_meta_iff : (o : Option Json) → (inject_meta o ≡ none) ↔ (o ≡ some null)
unfolding inject_meta
inject_meta_iff none = (λ h. cc, λ h. cc)
inject_meta_iff (some null) = (λ h. refl, λ h. refl)
inject_meta_iff (some (obj fs)) = (λ h. cc, λ h. cc)
inject_meta_iff (some (bool b)) = (λ h. cc, λ h. cc)
inject_meta_iff (some (num n)) = (λ h. cc, λ h. cc)
inject_meta_iff (some (str s)) = (λ h. cc, λ h. cc)
inject_meta_iff (some (arr vs)) = (λ h. cc, λ h. cc)

new_map-member :
    (out : Json) (k : String)
    → object (insert "_meta" stateless_client_meta []) ≡ out
    → member k out ≡ (if "_meta" == k then some stateless_client_meta else none)
unfolding lookup
new_map-member out k h =
    subst (λ o. member k o ≡ (if "_meta" == k then some stateless_client_meta else none)) h
      (member-insert "_meta" k stateless_client_meta [] tt)

-- Where `injectMeta` succeeds on params, the result has the proxy's `_meta`, and every other
-- member of the params (of which there are none where the params are no object).
inject_meta-member :
    (params out : Json)
    → inject_meta (some params) ≡ some out
    → (k : String)
    → member k out ≡ (if "_meta" == k then some stateless_client_meta else member k params)
unfolding inject_meta
inject_meta-member (obj fs) out h k =
    subst
      (λ o.
        member k o ≡ (if "_meta" == k then some stateless_client_meta else lookup k (members fs)))
      (some_eq h) (member-insert "_meta" k stateless_client_meta (members fs) (members-IsNodup fs))
inject_meta-member null out h k = cc
inject_meta-member (bool b) out h k = new_map-member out k cc
inject_meta-member (num n) out h k = new_map-member out k cc
inject_meta-member (str s) out h k = new_map-member out k cc
inject_meta-member (arr vs) out h k = new_map-member out k cc

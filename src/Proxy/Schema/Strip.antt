-- ===== src/Proxy/Schema/Strip.antt =====
-- internal/proxy/schema.go: what `stripTenantArg` leaves for the program's own decoder of the params.
use mt_mcp_proxy.Base.{
  String, ◌≡◌, ◌≢◌, refl, sym, ◌∙◌, ap, subst, inl, inr, Bool, true, not, ◌&&◌, ◌||◌, Option, none,
  some, [], ◌∷◌, ◌==◌, arith, eq_iff, Bool-cases, Option-cases,
}
use mt_mcp_proxy.Base.Dict.{Dict, lookup, insert, has, delete}
use mt_mcp_proxy.Json.{
  Json, null, bool, num, str, arr, obj, Fields, end, field, members, of_members, object,
}
use mt_mcp_proxy.Proxy.Schema.{
  tenant_arg, strip_tenant_arg, strip_arguments, equal_fold, struct_field, ToolCallParams,
  unmarshal_call_params, name_and,
}
use mt_mcp_proxy.Proxy.Schema.Laws.{member, member_in, strip_tenant_arg_lem}

-- A key that a decoder takes for `arguments` is spelled so.
abbrev pub is_exact : String → Bool
is_exact k = not (equal_fold k "arguments") || k == "arguments"

-- All keys of the params are so.
abbrev pub are_exact : Fields → Bool
are_exact end = true
are_exact (field k v fs) = is_exact k && are_exact fs

abbrev pub has_exact_keys : Json → Bool
has_exact_keys (obj fs) = are_exact fs
has_exact_keys _ = true

arguments_fold : equal_fold "arguments" "arguments" ≡ true
unfolding equal_fold
arguments_fold = refl

arguments-is_exact : is_exact "arguments" ≡ true
arguments-is_exact = rw arguments_fold refl

-- With such keys, the decoder and the map agree.
struct_field-members :
    (fs : Fields)
    → are_exact fs ≡ true
    → struct_field "arguments" fs ≡ lookup "arguments" (members fs)
unfolding struct_field lookup has
struct_field-members end h = refl
struct_field-members (field k v fs) h = elim (Bool-cases (k == "arguments")) [
  | inl e ↦
      let same = (eq_iff k "arguments").0 e in
      let folds = ap (λ x. equal_fold x "arguments") same ∙ arguments_fold in
      let found = ap (λ x. lookup x (members fs)) same in
      ground (arith, struct_field-members fs, folds, found, e)
  | inr e ↦ ground (arith, struct_field-members fs, e)
]

-- The keys of a map.
abbrev exact_keys : Dict Json → Bool
exact_keys [] = true
exact_keys ((k, v) ∷ m) = is_exact k && exact_keys m

exact_keys-members : (fs : Fields) → are_exact fs ≡ true → exact_keys (members fs) ≡ true
unfolding has
exact_keys-members end h = refl
exact_keys-members (field k v fs) h = ground (arith, exact_keys-members fs)

exact_keys-insert :
    (v : Json) (m : Dict Json) → exact_keys m ≡ true → exact_keys (insert "arguments" v m) ≡ true
unfolding insert
exact_keys-insert v [] h = ground (arith, arguments-is_exact)
exact_keys-insert v ((j, w) ∷ m) h = ground (arith, exact_keys-insert v m, arguments-is_exact)

are_exact-of_members : (m : Dict Json) → are_exact (of_members m) ≡ exact_keys m
are_exact-of_members [] = refl
are_exact-of_members ((k, v) ∷ m) = ap (λ b. is_exact k && b) (are_exact-of_members m)

some_eq : {a b : Json} → ◌≡◌ {A = Option Json} (some a) (some b) → a ≡ b
some_eq h = cc

object-has_exact_keys :
    (args : Dict Json) (fs : Fields)
    → are_exact fs ≡ true
    → has_exact_keys (object (insert "arguments" (object args) (members fs))) ≡ true
object-has_exact_keys args fs h =
    are_exact-of_members (insert "arguments" (object args) (members fs))
    ∙ exact_keys-insert (object args) (members fs) (exact_keys-members fs h)

strip_arguments-exact :
    (fs : Fields) (o : Option Json) (out : Json)
    → are_exact fs ≡ true
    → strip_arguments (obj fs) (members fs) o ≡ some out
    → has_exact_keys out ≡ true
unfolding has
strip_arguments-exact fs none out x h = subst (λ j. has_exact_keys j ≡ true) (some_eq h) x
strip_arguments-exact fs (some null) out x h = subst (λ j. has_exact_keys j ≡ true) (some_eq h) x
strip_arguments-exact fs (some (obj args)) out x h =
    elim (Option-cases (lookup tenant_arg (members args))) [
      | inl q ↦ subst (λ j. has_exact_keys j ≡ true) (some_eq (rw (q, has) at h)) x
      | inr (v, q) ↦
          subst (λ j. has_exact_keys j ≡ true) (some_eq (rw (q, has) at h))
            (object-has_exact_keys (delete tenant_arg (members args)) fs x)
    ]
strip_arguments-exact fs (some (bool b)) out x h = cc
strip_arguments-exact fs (some (num n)) out x h = cc
strip_arguments-exact fs (some (str s)) out x h = cc
strip_arguments-exact fs (some (arr vs)) out x h = cc

strip_tenant_arg-exact :
    (params out : Json)
    → has_exact_keys params ≡ true
    → strip_tenant_arg params ≡ some out
    → has_exact_keys out ≡ true
unfolding strip_tenant_arg
strip_tenant_arg-exact (obj fs) out x h =
    strip_arguments-exact fs (lookup "arguments" (members fs)) out x h
strip_tenant_arg-exact null out x h = subst (λ j. has_exact_keys j ≡ true) (some_eq h) x
strip_tenant_arg-exact (bool b) out x h = cc
strip_tenant_arg-exact (num n) out x h = cc
strip_tenant_arg-exact (str s) out x h = cc
strip_tenant_arg-exact (arr vs) out x h = cc

-- The arguments that the decoder takes are those of the map.
decoded_arguments :
    (params : Json) (p : ToolCallParams)
    → has_exact_keys params ≡ true
    → unmarshal_call_params (some params) ≡ some p
    → p.arguments ≡ member "arguments" params
unfolding unmarshal_call_params
decoded_arguments null p x h = cc
decoded_arguments (obj fs) p x h =
    name_and-arguments (struct_field "name" fs) (struct_field "arguments" fs) p h
    ∙ struct_field-members fs x
  where
    name_and-arguments :
        (name args : Option Json) (p : ToolCallParams)
        → name_and name args ≡ some p
        → p.arguments ≡ args
    name_and-arguments none args p h = cc
    name_and-arguments (some null) args p h = cc
    name_and-arguments (some (str s)) args p h = cc
    name_and-arguments (some (bool b)) args p h = cc h
    name_and-arguments (some (num n)) args p h = cc h
    name_and-arguments (some (arr vs)) args p h = cc h
    name_and-arguments (some (obj gs)) args p h = cc h
decoded_arguments (bool b) p x h = cc
decoded_arguments (num n) p x h = cc
decoded_arguments (str s) p x h = cc
decoded_arguments (arr vs) p x h = cc

-- Let no key of the params match `arguments` only without regard to case. If `stripTenantArg`
-- succeeds, then the arguments that the program's decoder takes from the result have no `tenant`,
-- and every other argument is as the decoder takes it from the params; every other member of the
-- params is as it was.
pub strip_tenant_arg-decoded :
    (params out : Json) (before after : ToolCallParams)
    → has_exact_keys params ≡ true
    → strip_tenant_arg params ≡ some out
    → unmarshal_call_params (some params) ≡ some before
    → unmarshal_call_params (some out) ≡ some after
    → (member_in tenant_arg after.arguments ≡ none)
      × ((k : String) → k ≢ tenant_arg → member_in k after.arguments ≡ member_in k before.arguments)
      × ((k : String) → k ≢ "arguments" → member k out ≡ member k params)
strip_tenant_arg-decoded params out before after x h b a =
    let (gone, others, members) = strip_tenant_arg_lem params out h in
    let was = decoded_arguments params before x b in
    let is = decoded_arguments out after (strip_tenant_arg-exact params out x h) a in
    (
      ap (member_in tenant_arg) is ∙ gone,
      (λ k n. ap (member_in k) is ∙ others k n ∙ sym (ap (member_in k) was)),
      members,
    )

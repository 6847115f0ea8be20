-- ===== src/Proxy/Schema/Inject.antt =====
-- internal/proxy/schema.go: what `injectTenantArg` does to a tool.
use mt_mcp_proxy.Base.{
  String, ◌≡◌, ◌≢◌, refl, sym, ◌∙◌, ap, subst, inl, inr, Bool, true, false, Option, none, some,
  List, [], ◌∷◌, ◌==◌, arith, eq_iff, eq_refl, In, contains, Bool-cases, if◌then◌else◌,
}
use mt_mcp_proxy.Base.Member.{contains_iff, In-last}
use mt_mcp_proxy.Base.Dict.{Dict, IsNodup, lookup, insert, lookup-insert, insert-IsNodup}
use mt_mcp_proxy.Json.{Json, null, bool, num, str, arr, obj, object, unmarshal_strings}
use mt_mcp_proxy.Proxy.Mcp.{RawTool}
use mt_mcp_proxy.Proxy.Schema.{
  tenant_arg, inject_tenant_arg, map_or, strings_or_nil, strings, add_tenant,
}
use mt_mcp_proxy.Proxy.Schema.Laws.{members-IsNodup, lookup-members}

abbrev no_schema : Dict Json
no_schema = ("type", str "object") ∷ []

-- The input schema of a tool, with its default; and the properties of a schema.
abbrev pub input_schema : RawTool → Dict Json
input_schema t = map_or no_schema (lookup "inputSchema" t)

abbrev pub properties : Dict Json → Dict Json
properties sch = map_or [] (lookup "properties" sch)

map_or-IsNodup : (d : Dict Json) (o : Option Json) → IsNodup d → IsNodup (map_or d o)
map_or-IsNodup d none h = h
map_or-IsNodup d (some (obj fs)) h = members-IsNodup fs
map_or-IsNodup d (some null) h = h
map_or-IsNodup d (some (bool b)) h = h
map_or-IsNodup d (some (num n)) h = h
map_or-IsNodup d (some (str s)) h = h
map_or-IsNodup d (some (arr vs)) h = h

-- What is read back from where an object was put.
lookup-put :
    (d m t : Dict Json) (at k : String)
    → IsNodup m
    → lookup k (map_or d (lookup at (insert at (object m) t))) ≡ lookup k m
lookup-put d m t at k h = rw (lookup-insert at at (object m) t, eq_refl at) (lookup-members k m h)

strings-read : (ss : List String) → unmarshal_strings (strings ss) ≡ ss
strings-read [] = refl
strings-read (s ∷ ss) = ap (λ l. s ∷ l) (strings-read ss)

In-add_tenant : (reqs : List String) → In tenant_arg (add_tenant reqs)
In-add_tenant reqs = elim (Bool-cases (contains reqs tenant_arg)) [
  | inl e ↦ rw e ((contains_iff reqs tenant_arg).0 e)
  | inr e ↦ rw e (In-last tenant_arg reqs)
]

-- The schema after the property and, where it is asked for, the requirement are put in.
abbrev with_property : Dict Json → Json → Dict Json
with_property sch schema =
    insert "properties" (object (insert tenant_arg schema (properties sch))) sch

abbrev with_required : Bool → Dict Json → Dict Json
with_required true sch =
    insert "required" (strings (add_tenant (strings_or_nil (lookup "required" sch)))) sch
with_required false sch = sch

inject_tenant_arg-eq :
    (t : RawTool) (schema : Json) (required : Bool)
    → inject_tenant_arg t schema required
      ≡ insert "inputSchema"
          (object (with_required required (with_property (input_schema t) schema)))
          t
unfolding inject_tenant_arg
inject_tenant_arg-eq t schema true = refl
inject_tenant_arg-eq t schema false = refl

with_property-IsNodup :
    (sch : Dict Json) (schema : Json) → IsNodup sch → IsNodup (with_property sch schema)
with_property-IsNodup sch schema h = insert-IsNodup "properties" _ sch h

with_required-IsNodup :
    (required : Bool) (sch : Dict Json) → IsNodup sch → IsNodup (with_required required sch)
with_required-IsNodup true sch h = insert-IsNodup "required" _ sch h
with_required-IsNodup false sch h = h

input_schema-IsNodup : (t : RawTool) → IsNodup (input_schema t)
unfolding lookup
input_schema-IsNodup t = map_or-IsNodup no_schema (lookup "inputSchema" t) (refl, tt)

with_required-properties :
    (required : Bool) (sch : Dict Json)
    → lookup "properties" (with_required required sch) ≡ lookup "properties" sch
with_required-properties true sch = lookup-insert "required" "properties" _ sch
with_required-properties false sch = refl

module _ (t : RawTool) (schema : Json) (required : Bool) where
  abbrev new_schema : Dict Json
  new_schema = with_required required (with_property (input_schema t) schema)

  new_schema-IsNodup : IsNodup new_schema
  new_schema-IsNodup =
      with_required-IsNodup required (with_property (input_schema t) schema)
        (with_property-IsNodup (input_schema t) schema (input_schema-IsNodup t))

  injected-lookup :
      (k : String)
      → lookup k (input_schema (inject_tenant_arg t schema required)) ≡ lookup k new_schema
  injected-lookup k =
      ap (λ u. lookup k (input_schema u)) (inject_tenant_arg-eq t schema required)
      ∙ lookup-put no_schema new_schema t "inputSchema" k new_schema-IsNodup

  properties-IsNodup : IsNodup (properties (input_schema t))
  properties-IsNodup = map_or-IsNodup [] (lookup "properties" (input_schema t)) tt

  injected-property :
      (k : String)
      → lookup k (properties (input_schema (inject_tenant_arg t schema required)))
        ≡ (if tenant_arg == k then some schema else lookup k (properties (input_schema t)))
  injected-property k =
      let props = insert tenant_arg schema (properties (input_schema t)) in
      ap (λ o. lookup k (map_or [] o))
        (injected-lookup "properties"
          ∙ with_required-properties required (with_property (input_schema t) schema))
      ∙ lookup-put [] props (input_schema t) "properties" k
          (insert-IsNodup tenant_arg schema (properties (input_schema t)) properties-IsNodup)
      ∙ lookup-insert tenant_arg k schema (properties (input_schema t))

injected-required :
    (t : RawTool) (schema : Json)
    → In tenant_arg
        (strings_or_nil (lookup "required" (input_schema (inject_tenant_arg t schema true))))
injected-required t schema =
    let sch = with_property (input_schema t) schema in
    let reqs = add_tenant (strings_or_nil (lookup "required" sch)) in
    let read : strings_or_nil (lookup "required" (input_schema (inject_tenant_arg t schema true)))
        ≡ reqs =
      ap strings_or_nil (
        injected-lookup t schema true "required"
        ∙ lookup-insert "required" "required" (strings reqs) sch)
      ∙ strings-read reqs in
    subst (In tenant_arg) (sym read) (In-add_tenant (strings_or_nil (lookup "required" sch)))

-- After `injectTenantArg` the input schema of the tool has the property `tenant` with the given
-- schema, and every other property as before; where the argument is required, `tenant` is among
-- the required ones; and the other members of the tool are as before.
pub inject_tenant_arg_lem :
    (t : RawTool) (schema : Json) (required : Bool)
    → ((k : String)
        → lookup k (properties (input_schema (inject_tenant_arg t schema required)))
          ≡ (if tenant_arg == k then some schema else lookup k (properties (input_schema t))))
      × (required ≡ true
          → In tenant_arg (
              strings_or_nil
                (lookup "required" (input_schema (inject_tenant_arg t schema required)))))
      × ((k : String)
          → k ≢ "inputSchema"
          → lookup k (inject_tenant_arg t schema required) ≡ lookup k t)
inject_tenant_arg_lem t schema required = (
  injected-property t schema required,
  (λ e.
      subst
        (λ b.
          In tenant_arg
            (strings_or_nil (lookup "required" (input_schema (inject_tenant_arg t schema b)))))
        (sym e) (injected-required t schema)),
  (λ k n.
      ap (lookup k) (inject_tenant_arg-eq t schema required)
      ∙ lookup-insert "inputSchema" k _ t
      ∙ ground (arith, eq_iff "inputSchema" k, n)),
)

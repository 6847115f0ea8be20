-- ===== src/Observability/Laws.antt =====
-- What the attributes of a call tell, and what `Shutdown` returns.
use mt_mcp_proxy.Base.{
  String, ◌≡◌, refl, ◌∙◌, inl, inr, Bool, true, false, Option, none, some, List, [], ◌∷◌, ◌++◌,
  ◌==◌, arith, eq_iff, Option-cases, if◌then◌else◌,
}
use mt_mcp_proxy.Base.Dict.{Dict, lookup}
use mt_mcp_proxy.Http.{or_empty}
use mt_mcp_proxy.Observability.{
  ToolCallAttrs, attr_method_name, attr_tool_name, attr_tenant_id, attr_backend, attr_error_type,
  attr_if, attributes, Observability, Provider, tracer_provider, meter_provider, shutdown,
}

-- The value of a key, "" where there is none.
unfoldable pub value_of : String → Dict String → String
unfolding lookup
value_of k d = or_empty (lookup k d)

value_of-attr_if_same :
    (k v : String) (rest : Dict String)
    → value_of k rest ≡ ""
    → value_of k (attr_if k v ++ rest) ≡ v
unfolding value_of lookup
value_of-attr_if_same k v rest h = ground (arith, eq_iff v "", eq_iff k k)

value_of-attr_if_other :
    (k j v : String) (rest : Dict String)
    → (j == k) ≡ false
    → value_of k (attr_if j v ++ rest) ≡ value_of k rest
unfolding value_of lookup
value_of-attr_if_other k j v rest h = ground arith

-- The record that a set of attributes stands for.
unfoldable pub attrs_of : Dict String → ToolCallAttrs
attrs_of d = record {
  method = value_of attr_method_name d;
  tool = value_of attr_tool_name d;
  tenant_id = value_of attr_tenant_id d;
  backend = value_of attr_backend d;
  error_type = value_of attr_error_type d;
}

-- The optional attributes, in order, from the place of `k` on.
value_of-last : (k v : String) → value_of k (attr_if k v) ≡ v
unfolding value_of lookup
value_of-last k v = ground (arith, eq_iff v "", eq_iff k k)

value_of-last_other : (k j v : String) → (j == k) ≡ false → value_of k (attr_if j v) ≡ ""
unfolding value_of lookup
value_of-last_other k j v h = ground arith

module _ (a : ToolCallAttrs) where
  abbrev from_error : Dict String
  from_error = attr_if attr_error_type a.error_type

  abbrev from_backend : Dict String
  from_backend = attr_if attr_backend a.backend ++ from_error

  abbrev from_tenant : Dict String
  from_tenant = attr_if attr_tenant_id a.tenant_id ++ from_backend

  abbrev from_tool : Dict String
  from_tool = attr_if attr_tool_name a.tool ++ from_tenant

  tool_read : value_of attr_tool_name from_tool ≡ a.tool
  tool_read = value_of-attr_if_same attr_tool_name a.tool from_tenant (
      value_of-attr_if_other attr_tool_name attr_tenant_id a.tenant_id from_backend refl
      ∙ value_of-attr_if_other attr_tool_name attr_backend a.backend from_error refl
      ∙ value_of-last_other attr_tool_name attr_error_type a.error_type refl)

  tenant_read : value_of attr_tenant_id from_tool ≡ a.tenant_id
  tenant_read =
      value_of-attr_if_other attr_tenant_id attr_tool_name a.tool from_tenant refl
      ∙ value_of-attr_if_same attr_tenant_id a.tenant_id from_backend (
          value_of-attr_if_other attr_tenant_id attr_backend a.backend from_error refl
          ∙ value_of-last_other attr_tenant_id attr_error_type a.error_type refl)

  backend_read : value_of attr_backend from_tool ≡ a.backend
  backend_read =
      value_of-attr_if_other attr_backend attr_tool_name a.tool from_tenant refl
      ∙ value_of-attr_if_other attr_backend attr_tenant_id a.tenant_id from_backend refl
      ∙ value_of-attr_if_same attr_backend a.backend from_error
          (value_of-last_other attr_backend attr_error_type a.error_type refl)

  error_read : value_of attr_error_type from_tool ≡ a.error_type
  error_read =
      value_of-attr_if_other attr_error_type attr_tool_name a.tool from_tenant refl
      ∙ value_of-attr_if_other attr_error_type attr_tenant_id a.tenant_id from_backend refl
      ∙ value_of-attr_if_other attr_error_type attr_backend a.backend from_error refl
      ∙ value_of-last attr_error_type a.error_type

  -- The attributes that a call is recorded with tell its method, tool, tenant, backend and error
  -- apart: reading them back, with "" for a key that is not there, gives what was recorded.
  pub attrs_of-attributes : attrs_of (attributes a) ≡ a
  unfolding attrs_of attributes value_of lookup
  attrs_of-attributes = λ i. record {
    method = a.method;
    tool = tool_read i;
    tenant_id = tenant_read i;
    backend = backend_read i;
    error_type = error_read i;
  }

-- The error of the first of some providers that fails.
pub first_failure : {E : Type 0} → (Provider → Option E) → List Provider → Option E
first_failure fails [] = none
first_failure fails (p ∷ ps) = elim (fails p) [ none ↦ first_failure fails ps | some e ↦ some e ]

told :
    (b : Bool)
    → (if b then tracer_provider ∷ [] else []) ++ meter_provider ∷ []
      ≡ (if b then tracer_provider ∷ meter_provider ∷ [] else meter_provider ∷ [])
told true = refl
told false = refl

-- `Shutdown` returns the error of the first provider that fails, and none where none fails; the
-- meter provider is told in any case, and the tracer provider before it where there is one.
pub shutdown_lem :
    {E : Type 0} (fails : Provider → Option E) (o : Observability)
    → ((shutdown fails (some o)).0 ≡ (
        if o.has_tracer_provider
        then tracer_provider ∷ meter_provider ∷ []
        else meter_provider ∷ []))
      × ((shutdown fails (some o)).1 ≡ first_failure fails (shutdown fails (some o)).0)
unfolding shutdown first_failure
shutdown_lem fails o = elim (Option-cases (fails meter_provider)) [
  | inl well ↦ elim (Option-cases (fails tracer_provider)) [
    | inl fine ↦ rw (well, fine) (told o.has_tracer_provider, ground arith)
    | inr bad ↦ rw (well, bad.1) (told o.has_tracer_provider, ground arith)
  ]
  | inr broken ↦ elim (Option-cases (fails tracer_provider)) [
    | inl fine ↦ rw (broken.1, fine) (told o.has_tracer_provider, ground arith)
    | inr bad ↦ rw (broken.1, bad.1) (told o.has_tracer_provider, ground arith)
  ]
]

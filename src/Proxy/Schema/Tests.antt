-- ===== src/Proxy/Schema/Tests.antt =====
-- Params, headers and event streams of a call.
use mt_mcp_proxy.Base.{
  ◌≡◌, ◌≢◌, ◌↔◌, refl, String, none, some, List, [], ◌∷◌, ◌++◌, ◌==◌, is_empty, if◌then◌else◌,
}
use mt_mcp_proxy.Base.Dict.{Dict, IsNodup, lookup, insert, delete, has}
use mt_mcp_proxy.Json.{Json, str, null, object}
use mt_mcp_proxy.Proxy.Mcp.{join, decode_lines}
use mt_mcp_proxy.Proxy.Mcp.Sse.{payloads, decode_lines_lem}
use mt_mcp_proxy.Proxy.Schema.{tenant_arg, strip_tenant_arg, inject_meta, stateless_client_meta}
use mt_mcp_proxy.Base.{true, In}
use mt_mcp_proxy.Proxy.Mcp.{RawTool}
use mt_mcp_proxy.Proxy.Schema.{inject_tenant_arg, strings_or_nil}
use mt_mcp_proxy.Proxy.Schema.Inject.{input_schema, properties, inject_tenant_arg_lem}
use mt_mcp_proxy.Base.Text.{to_lower}
use mt_mcp_proxy.Proxy.Schema.{ToolCallParams, unmarshal_call_params, struct_field, equal_fold}
use mt_mcp_proxy.Proxy.Schema.Strip.{has_exact_keys, strip_tenant_arg-decoded}
use mt_mcp_proxy.Proxy.Schema.Laws.{member, member_in, inject_meta_iff}
use mt_mcp_proxy.Proxy.ParamHeaders.{merge_headers}
use mt_mcp_proxy.Proxy.ParamHeaders.Laws.{or_else, merge_headers_lem}

-- params with the tenant argument and another one
abbrev named : Json
named = object (
    ("name", str "search")
    ∷ ("arguments", object (("tenant", str "acme") ∷ ("q", str "x") ∷ []))
    ∷ [])

abbrev bare : Json
bare = object (("name", str "search") ∷ ("arguments", object (("q", str "x") ∷ [])) ∷ [])

named_stripped : strip_tenant_arg named ≡ some bare
unfolding strip_tenant_arg lookup has insert delete
named_stripped = refl

abbrev args_of : Json → ToolCallParams
args_of args = record { name = "search"; arguments = some args }

named_decoded :
    unmarshal_call_params (some named)
    ≡ some (args_of (object (("tenant", str "acme") ∷ ("q", str "x") ∷ [])))
unfolding unmarshal_call_params struct_field equal_fold to_lower
named_decoded = refl

bare_decoded : unmarshal_call_params (some bare) ≡ some (args_of (object (("q", str "x") ∷ [])))
unfolding unmarshal_call_params struct_field equal_fold to_lower
bare_decoded = refl

named_exact : has_exact_keys named ≡ true
unfolding equal_fold to_lower
named_exact = refl

strip_tenant_arg-decoded_example :
    (member_in tenant_arg (some (object (("q", str "x") ∷ []))) ≡ none)
    × ((k : String)
        → k ≢ tenant_arg
        → member_in k (some (object (("q", str "x") ∷ [])))
          ≡ member_in k (some (object (("tenant", str "acme") ∷ ("q", str "x") ∷ []))))
    × ((k : String) → k ≢ "arguments" → member k bare ≡ member k named)
strip_tenant_arg-decoded_example =
    strip_tenant_arg-decoded named bare
      (args_of (object (("tenant", str "acme") ∷ ("q", str "x") ∷ [])))
      (args_of (object (("q", str "x") ∷ []))) named_exact named_stripped named_decoded bare_decoded

-- A key that matches only without regard to case: the decoder takes the tenant from it, and the
-- argument is not stripped.
abbrev loud : Json
loud = object (("name", str "search") ∷ ("Arguments", object (("tenant", str "acme") ∷ [])) ∷ [])

loud_decoded :
    unmarshal_call_params (some loud) ≡ some (args_of (object (("tenant", str "acme") ∷ [])))
unfolding unmarshal_call_params struct_field equal_fold to_lower
loud_decoded = refl

loud_stripped : strip_tenant_arg loud ≡ some loud
unfolding strip_tenant_arg lookup has
loud_stripped = refl

inject_meta_iff_example : (inject_meta (some null) ≡ none) ↔ (some null ≡ some null)
inject_meta_iff_example = inject_meta_iff (some null)

bare_injected :
    inject_meta (some (object [])) ≡ some (object (("_meta", stateless_client_meta) ∷ []))
unfolding inject_meta lookup insert
bare_injected = refl

abbrev org : String → Dict String
org s = ("X-Org", s) ∷ []

org-IsNodup : (s : String) → IsNodup (org s)
unfolding lookup
org-IsNodup s = (refl, tt)

merge_headers_lem_example :
    lookup "X-Org" (merge_headers (org "a") (org "b"))
    ≡ or_else (lookup "X-Org" (org "b")) (lookup "X-Org" (org "a"))
merge_headers_lem_example =
    merge_headers_lem (org "a") (org "b") "X-Org" (org-IsNodup "a") (org-IsNodup "b")

abbrev block : List String
block = ": ping" ∷ "data: {" ∷ "data: }" ∷ []

decode_lines_lem_example :
    (decode_lines [] (block ++ "" ∷ "data: x" ∷ []) ≡ (
      if is_empty (payloads block)
      then decode_lines [] ("data: x" ∷ [])
      else some (join "\n" (payloads block))))
    × (decode_lines [] block
        ≡ (if is_empty (payloads block) then none else some (join "\n" (payloads block))))
decode_lines_lem_example = decode_lines_lem block ("data: x" ∷ []) (refl, (refl, (refl, tt)))

abbrev search_tool : RawTool
search_tool = ("name", str "search") ∷ ("inputSchema", object (("type", str "object") ∷ [])) ∷ []

inject_tenant_arg_lem_example :
    ((k : String)
      → lookup k (properties (input_schema (inject_tenant_arg search_tool null true)))
        ≡ (if tenant_arg == k then some null else lookup k (properties (input_schema search_tool))))
    × (true ≡ true
        → In tenant_arg (
            strings_or_nil
              (lookup "required" (input_schema (inject_tenant_arg search_tool null true)))))
    × ((k : String)
        → k ≢ "inputSchema"
        → lookup k (inject_tenant_arg search_tool null true) ≡ lookup k search_tool)
inject_tenant_arg_lem_example = inject_tenant_arg_lem search_tool null true

-- ===== src/Proxy/Schema.antt =====
-- internal/proxy/schema.go: the tenant argument in tool schemas and in tools/call arguments. The
-- copies of `cloneTool` need no counterpart: values are not shared here.
pub mod Laws
pub mod Strip
pub mod Inject
mod Tests
use Prim.Native.Char.{code}
use Prim.Native.String.{[] as empty_text, ◌∷◌ as cons_char}
use mt_mcp_proxy.Base.{
  ℕ, String, Bool, true, false, ◌&&◌, Option, none, some, List, [], ◌∷◌, ◌++◌, map, if◌then◌else◌,
  nat_eq, contains, is_empty,
}
use mt_mcp_proxy.Base.Dict.{Dict, lookup, insert, delete, has}
use mt_mcp_proxy.Base.Text.{to_lower}
use mt_mcp_proxy.Json.{
  Json, null, bool, num, str, arr, obj, Fields, end, field, object, array, MapResult, failed,
  nil_map, a_map, unmarshal_map, unmarshal_string, unmarshal_strings,
}
use mt_mcp_proxy.Config.{protocol_version_stateless}
use mt_mcp_proxy.Proxy.Mcp.{RawTool}

abbrev pub tenant_arg : String
tenant_arg = "tenant"

abbrev pub list_instances_tool : String
list_instances_tool = "list_instances"

abbrev pub strings : List String → Json
strings ss = array (map str ss)

unfoldable pub tenant_schema : List String → Bool → Json
tenant_schema ids required = object (
    ("type", str "string")
    ∷ (
      "description",
      str (
          if required
          then "Required. Target instance (tenant) for this call."
          else "Optional. Target instance (tenant). Call list_instances to discover valid values."),
    )
    ∷ (if is_empty ids then [] else ("enum", strings ids) ∷ []))

-- `_ = json.Unmarshal(raw, &m)`, and the map to use where `m` is still nil.
abbrev pub map_or : Dict Json → Option Json → Dict Json
map_or d none = d
map_or d (some raw) = elim (unmarshal_map raw) [ failed ↦ d | nil_map ↦ d | a_map m ↦ m ]

abbrev pub strings_or_nil : Option Json → List String
strings_or_nil none = []
strings_or_nil (some raw) = unmarshal_strings raw

abbrev pub add_tenant : List String → List String
add_tenant reqs = if contains reqs tenant_arg then reqs else reqs ++ tenant_arg ∷ []

unfoldable pub inject_tenant_arg : RawTool → Json → Bool → RawTool
inject_tenant_arg t schema required =
    let sch = map_or (("type", str "object") ∷ []) (lookup "inputSchema" t) in
    let props = insert tenant_arg schema (map_or [] (lookup "properties" sch)) in
    let sch' = insert "properties" (object props) sch in
    let sch'' =
      if required
      then insert "required" (strings (add_tenant (strings_or_nil (lookup "required" sch')))) sch'
      else sch' in
    insert "inputSchema" (object sch'') t

unfoldable pub list_instances_tool_def : RawTool
list_instances_tool_def =
    ("name", str list_instances_tool)
    ∷ (
      "description",
      str
          "Lists the instances (tenants) you are authorized to access. Use the returned ids as the 'tenant' argument.",
    )
    ∷ ("inputSchema", object (("type", str "object") ∷ ("properties", object []) ∷ []))
    ∷ []

abbrev member_of : String → MapResult → Option Json
member_of k failed = none
member_of k nil_map = none
member_of k (a_map m) = lookup k m

abbrev pub string_or_empty : Option Json → String
string_or_empty none = ""
string_or_empty (some v) = unmarshal_string v

-- `extractTenantArg`; missing arguments are `none`.
unfoldable pub extract_tenant_arg : Option Json → String
extract_tenant_arg none = ""
extract_tenant_arg (some args) = string_or_empty (member_of tenant_arg (unmarshal_map args))

-- `stripTenantArg`; `none` is an error.
abbrev without_tenant : Json → Dict Json → MapResult → Option Json
without_tenant params p failed = none
without_tenant params p nil_map = some params
without_tenant params p (a_map args) =
    if has tenant_arg args
    then some (object (insert "arguments" (object (delete tenant_arg args)) p))
    else some params

abbrev strip_arguments : Json → Dict Json → Option Json → Option Json
strip_arguments params p none = some params
strip_arguments params p (some raw_args) = without_tenant params p (unmarshal_map raw_args)

abbrev strip_members : Json → MapResult → Option Json
strip_members params failed = none
strip_members params nil_map = some params
strip_members params (a_map p) = strip_arguments params p (lookup "arguments" p)

unfoldable pub strip_tenant_arg : Json → Option Json
strip_tenant_arg params = strip_members params (unmarshal_map params)

abbrev pub stateless_client_meta : Json
stateless_client_meta = object (
    ("io.modelcontextprotocol/protocolVersion", str protocol_version_stateless)
    ∷ (
      "io.modelcontextprotocol/clientInfo",
      object (("name", str "mt-mcp-proxy") ∷ ("version", str "0") ∷ []),
    )
    ∷ ("io.modelcontextprotocol/clientCapabilities", object [])
    ∷ [])

-- `injectMeta`. The map is made before `json.Unmarshal`, which sets it to nil for `null` and leaves
-- it empty on an error; a write to a nil map panics, which is `none`.
abbrev put_meta : MapResult → Option Json
put_meta failed = some (object (insert "_meta" stateless_client_meta []))
put_meta nil_map = none
put_meta (a_map p) = some (object (insert "_meta" stateless_client_meta p))

unfoldable pub inject_meta : Option Json → Option Json
inject_meta none = put_meta (a_map [])
inject_meta (some params) = put_meta (unmarshal_map params)

-- The key of a struct field matches without regard to case: `encoding/json` folds both, and two
-- letters outside ASCII fold to s and to k.
abbrev fold_rune : ℕ → ℕ
fold_rune c = if nat_eq c 0x17f then b's' else if nat_eq c 0x212a then b'k' else to_lower c

unfoldable pub equal_fold : String → String → Bool
unfolding to_lower
equal_fold empty_text empty_text = true
equal_fold empty_text (cons_char d t) = false
equal_fold (cons_char c s) empty_text = false
equal_fold (cons_char c s) (cons_char d t) =
    nat_eq (fold_rune (code c)) (fold_rune (code d)) && equal_fold s t

abbrev later_or : Option Json → Option Json → Option Json
later_or none o = o
later_or (some v) o = some v

-- The value that a struct's field takes from an object: that of the last key that matches.
unfoldable pub struct_field : String → Fields → Option Json
unfolding equal_fold
struct_field name end = none
struct_field name (field k v fs) =
    later_or (struct_field name fs) (if equal_fold k name then some v else none)

-- `toolCallParams` of mcp.go
pub record ToolCallParams : Type 0 where
  pub name : String
  pub arguments : Option Json

abbrev name_and : Option Json → Option Json → Option ToolCallParams
name_and none args = some (record { name = ""; arguments = args })
name_and (some null) args = some (record { name = ""; arguments = args })
name_and (some (str s)) args = some (record { name = s; arguments = args })
name_and (some v) args = none

-- `json.Unmarshal(req.Params, &params)`; `none` is its error.
unfoldable pub unmarshal_call_params : Option Json → Option ToolCallParams
unfolding struct_field
unmarshal_call_params none = none
unmarshal_call_params (some null) = some (record { name = ""; arguments = none })
unmarshal_call_params (some (obj fs)) =
    name_and (struct_field "name" fs) (struct_field "arguments" fs)
unmarshal_call_params (some v) = none

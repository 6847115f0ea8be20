-- ===== src/Proxy/ParamHeaders.antt =====
-- internal/proxy/paramheaders.go: the Mcp-Param-* headers (SEP-2243) of a call.
pub mod Laws
pub mod Bounds
mod Tests
use Prim.Native.Char.{code}
use Prim.Native.String.{[] as empty_text, ◌∷◌ as cons_char, ◌++◌ as append}
use mt_mcp_proxy.Base.{
  String, Bool, true, false, ◌&&◌, ◌||◌, Option, none, some, List, [], ◌∷◌, ◌==◌, if◌then◌else◌,
  ltb,
}
use mt_mcp_proxy.Base.Dict.{Dict, lookup, insert}
use mt_mcp_proxy.Base.Text.{has_prefix, has_suffix}
use mt_mcp_proxy.Json.{Json, null, bool, num, str, arr, obj, Fields, members, unmarshal_string}
use mt_mcp_proxy.Proxy.Mcp.{RawTool}
use mt_mcp_proxy.Proxy.Schema.{struct_field, map_or}
use mt_mcp_proxy.Proxy.World.{Env}

abbrev pub param_header_prefix : String
param_header_prefix = "Mcp-Param-"

abbrev pub base64_prefix : String
base64_prefix = "=?base64?"

abbrev pub base64_suffix : String
base64_suffix = "?="

abbrev pub has_unsafe : String → Bool
has_unsafe empty_text = false
has_unsafe (cons_char c s) = ltb (code c) 0x20 || ltb 0x7e (code c) || has_unsafe s

-- A value that looks like the Base64 wrapper.
unfoldable pub is_wrapped : String → Bool
unfolding has_prefix has_suffix
is_wrapped s = has_prefix s base64_prefix && has_suffix s base64_suffix

unfoldable pub requires_param_header_base64 : String → Bool
unfolding is_wrapped
requires_param_header_base64 s =
    if s == ""
    then false
    else if has_prefix s " " || has_prefix s "\t" || has_suffix s " " || has_suffix s "\t"
    then true
    else if has_unsafe s
    then true
    else is_wrapped s

unfoldable pub wrap_base64 : Env → String → String
wrap_base64 env s = append base64_prefix (append (env.base64 s) base64_suffix)

-- The text of a primitive; `none` for any other value.
unfoldable pub primitive_text : Env → Json → Option String
primitive_text env (str s) = some s
primitive_text env (bool b) = some (if b then "true" else "false")
primitive_text env (num n) = env.format_int n
primitive_text env _ = none

abbrev pub encode_text : Env → Option String → Option String
encode_text env none = none
encode_text env (some s) = some (if requires_param_header_base64 s then wrap_base64 env s else s)

unfoldable pub encode_param_header_value : Env → Json → Option String
unfolding primitive_text requires_param_header_base64 wrap_base64
encode_param_header_value env raw = encode_text env (primitive_text env raw)

-- The annotation of a property's schema; the outer `none` is a type error.
abbrev annotation : Json → Option (Option Json)
annotation (obj fs) = some (struct_field "x-mcp-header" fs)
annotation null = some none
annotation _ = none

abbrev and_annotation :
    String → Option (Option Json) → Option (Dict (Option Json)) → Option (Dict (Option Json))
and_annotation k none ps = none
and_annotation k (some a) none = none
and_annotation k (some a) (some ps) = some ((k, a) ∷ ps)

abbrev annotations : Dict Json → Option (Dict (Option Json))
annotations [] = some []
annotations ((k, v) ∷ m) = and_annotation k (annotation v) (annotations m)

abbrev properties : Option Json → Option (Dict (Option Json))
properties none = some []
properties (some null) = some []
properties (some (obj fs)) = annotations (members fs)
properties (some v) = none

-- `json.Unmarshal(rawSchema, &schema)`; nothing for an error.
unfoldable pub schema_properties : Json → Dict (Option Json)
unfolding struct_field
schema_properties (obj fs) = elim (properties (struct_field "properties" fs)) [
  | none ↦ []
  | some ps ↦ ps
]
schema_properties v = []

-- The value that one property puts into a header.
abbrev pub header_value : Env → Option Json → Option String
header_value env none = none
header_value env (some null) = none
header_value env (some v) = encode_param_header_value env v

abbrev pub put_header : String → Option String → Dict String → Dict String
put_header name none headers = headers
put_header name (some v) headers = insert (append param_header_prefix name) v headers

abbrev pub put_property : Env → Dict Json → String → Option Json → Dict String → Dict String
put_property env args prop none headers = headers
put_property env args prop (some a) headers =
    if unmarshal_string a == ""
    then headers
    else put_header (unmarshal_string a) (header_value env (lookup prop args)) headers

-- The loop over the properties.
unfoldable pub project : Env → Dict Json → Dict (Option Json) → Dict String → Dict String
unfolding encode_param_header_value
project env args [] headers = headers
project env args ((prop, a) ∷ ps) headers =
    project env args ps (put_property env args prop a headers)

-- No headers, nil or empty, are the empty list.
unfoldable pub param_headers_for_tool : Env → RawTool → Option Json → Dict String
unfolding project schema_properties
param_headers_for_tool env tool args_json = elim (lookup "inputSchema" tool) [
  | none ↦ []
  | some raw ↦ project env (map_or [] args_json) (schema_properties raw) []
]

-- `for k, v := range m { out[k] = v }`
unfoldable pub merge_into : Dict String → Dict String → Dict String
merge_into out [] = out
merge_into out ((k, v) ∷ m) = merge_into (insert k v out) m

-- `mergeHeaders(a, b)`
unfoldable pub merge_headers : Dict String → Dict String → Dict String
unfolding merge_into
merge_headers a b = merge_into (merge_into [] a) b

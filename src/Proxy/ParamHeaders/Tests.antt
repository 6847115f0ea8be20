-- ===== src/Proxy/ParamHeaders/Tests.antt =====
-- A tool with an annotated property, and an argument with a line break.
use mt_mcp_proxy.Base.{String, ◌≡◌, refl, Option, some, arith, ◌∷◌, []}
use mt_mcp_proxy.Base.Dict.{lookup, insert, has}
use mt_mcp_proxy.Base.Text.{has_prefix, has_suffix}
use mt_mcp_proxy.Json.{Json, str, object}
use mt_mcp_proxy.Proxy.Mcp.{RawTool}
use mt_mcp_proxy.Proxy.Schema.{struct_field, equal_fold}
use mt_mcp_proxy.Proxy.World.{Env}
use mt_mcp_proxy.Proxy.ParamHeaders.{
  param_headers_for_tool, project, schema_properties, encode_param_header_value, primitive_text,
  requires_param_header_base64, wrap_base64,
}
use mt_mcp_proxy.Proxy.ParamHeaders.Bounds.{IsPrintable, param_headers_for_tool-IsPrintable}
use mt_mcp_proxy.Fixtures.{net}

abbrev encoding : Env
encoding = record net { base64 = λ s. "YQpi" }

abbrev annotated : RawTool
annotated =
    (
      "inputSchema",
      object (
          ("properties", object (("owner", object (("x-mcp-header", str "Owner") ∷ [])) ∷ []))
          ∷ []),
    )
    ∷ []

abbrev two_lines : Option Json
two_lines = some (object (("owner", str "a\nb") ∷ []))

wrapped :
    lookup "Mcp-Param-Owner" (param_headers_for_tool encoding annotated two_lines)
    ≡ some "=?base64?YQpi?="
unfolding lookup insert param_headers_for_tool project schema_properties encode_param_header_value
    primitive_text requires_param_header_base64 wrap_base64 struct_field equal_fold has_prefix
    has_suffix has
wrapped = refl

encoding_safe : (s : String) → IsPrintable (encoding.base64 s)
encoding_safe s = ground arith

param_headers_for_tool-IsPrintable_example : IsPrintable "=?base64?YQpi?="
param_headers_for_tool-IsPrintable_example =
    param_headers_for_tool-IsPrintable encoding encoding_safe annotated two_lines "Mcp-Param-Owner"
      "=?base64?YQpi?=" wrapped

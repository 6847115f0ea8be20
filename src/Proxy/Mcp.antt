-- ===== src/Proxy/Mcp.antt =====
-- internal/proxy/mcp.go: JSON-RPC messages and the response framings.
pub mod Sse
use Prim.Native.Char.{code}
use Prim.Native.String.{[] as empty_text, ◌∷◌ as cons_char, ◌++◌ as append}
use mt_mcp_proxy.Base.{
  String, Bool, true, false, ◌||◌, Option, none, some, List, [], ◌∷◌, ◌++◌, ◌==◌, Result, ok, err,
  if◌then◌else◌, nat_eq, is_empty,
}
use mt_mcp_proxy.Base.Dict.{Dict, lookup}
use mt_mcp_proxy.Base.Text.{has_prefix, contains_text}
use mt_mcp_proxy.Json.{
  Json, null, num, bool, str, obj, Fields, end, field, object, array, items, arr,
}
use mt_mcp_proxy.Http.{RpcRequest}

abbrev pub mcp_session_header : String
mcp_session_header = "Mcp-Session-Id"

abbrev pub mcp_protocol_version_header : String
mcp_protocol_version_header = "MCP-Protocol-Version"

abbrev pub mcp_method_header : String
mcp_method_header = "Mcp-Method"

abbrev pub mcp_name_header : String
mcp_name_header = "Mcp-Name"

-- The id is missing, or is the literal `null`.
unfoldable pub is_notification : RpcRequest → Bool
is_notification r = elim r.id [ none ↦ true | some v ↦ elim v [ null ↦ true | _ ↦ false ] ]

-- A tool's members, by name.
abbrev pub RawTool : Type 0
RawTool = Dict Json

abbrev with_id : Option Json → Dict Json → Json
with_id none m = object m
with_id (some id) m = object (m ++ ("id", id) ∷ [])

-- `writeJSONRPCResult`; the order of members says nothing in JSON.
abbrev pub rpc_result : Option Json → Json → Json
rpc_result id result = with_id id (("jsonrpc", str "2.0") ∷ ("result", result) ∷ [])

-- `jsonRPCErrorBytes`
abbrev pub rpc_error : Option Json → String → String → Json
rpc_error id code message = with_id id (
    ("jsonrpc", str "2.0")
    ∷ ("error", object (("code", num code) ∷ ("message", str message) ∷ []))
    ∷ [])

-- `toolResultText`
abbrev pub tool_result_text : String → Bool → Dict Json
tool_result_text text is_error =
    ("content", array (object (("type", str "text") ∷ ("text", str text) ∷ []) ∷ []))
    ∷ ("isError", bool is_error)
    ∷ []

-- `bufio.ScanLines`: the lines end at "\n", a "\r" before it is dropped, and an empty rest after
-- the last "\n" is no line. `cur` is the line that is being read.
abbrev drop_cr : String → String
drop_cr empty_text = empty_text
drop_cr (cons_char c s) = elim s [
  | empty_text ↦ (if nat_eq (code c) 13 then empty_text else cons_char c empty_text)
  | cons_char d t ↦ cons_char c (drop_cr s)
]

unfoldable pub lines_from : String → String → List String
lines_from cur empty_text = if cur == "" then [] else drop_cr cur ∷ []
lines_from cur (cons_char c s) =
    let next = lines_from empty_text s in
    let longer = lines_from (append cur (cons_char c empty_text)) s in
    if nat_eq (code c) 10 then drop_cr cur ∷ next else longer

-- `strings.TrimPrefix(strings.TrimPrefix(line, "data:"), " ")`
abbrev trim_space_prefix : String → String
trim_space_prefix empty_text = empty_text
trim_space_prefix (cons_char c s) = if nat_eq (code c) 32 then s else cons_char c s

abbrev drop5 : String → String
drop5 (cons_char a (cons_char b (cons_char c (cons_char d (cons_char e s))))) = s
drop5 s = s

unfoldable pub data_line : String → Option String
unfolding has_prefix
data_line line = if has_prefix line "data:" then some (trim_space_prefix (drop5 line)) else none

-- `strings.Join(data, "\n")`
unfoldable pub join : String → List String → String
join sep [] = ""
join sep (s ∷ []) = s
join sep (s ∷ t ∷ ss) = append s (append sep (join sep (t ∷ ss)))

abbrev add_line : List String → Option String → List String
add_line lines none = lines
add_line lines (some s) = lines ++ s ∷ []

-- The scan loop; `none` is "no data payload in SSE stream".
unfoldable pub decode_lines : List String → List String → Option String
unfolding data_line join
decode_lines data_lines [] = if is_empty data_lines then none else some (join "\n" data_lines)
decode_lines data_lines (line ∷ rest) =
    let ended = some (join "\n" data_lines) in
    let more = decode_lines (add_line data_lines (data_line line)) rest in
    if line == "" then (if is_empty data_lines then more else ended) else more

unfoldable pub decode_sse : String → Option String
unfolding decode_lines lines_from
decode_sse body = decode_lines [] (lines_from "" body)

unfoldable pub decode_body : String → String → Option String
unfolding decode_sse contains_text
decode_body content_type body =
    if contains_text content_type "text/event-stream" then decode_sse body else some body

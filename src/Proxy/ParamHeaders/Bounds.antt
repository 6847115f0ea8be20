-- ===== src/Proxy/ParamHeaders/Bounds.antt =====
-- internal/proxy/paramheaders.go: the code points of the header values that are projected.
use Prim.Native.Char.{code}
use Prim.Native.String.{[] as empty_text, ◌∷◌ as cons_char, ◌++◌ as text_append}
use Prim.Native.String.append
use mt_mcp_proxy.Base.{
  ◌≤◌, String, ◌≡◌, refl, sym, subst, inl, inr, false, Option, none, some, [], ◌∷◌, ◌==◌, arith,
  eq_iff, Bool-cases, Option-cases,
}
use mt_mcp_proxy.Base.Dict.{Dict, lookup, insert}
use mt_mcp_proxy.Json.{Json, null, unmarshal_string}
use mt_mcp_proxy.Proxy.Mcp.{RawTool}
use mt_mcp_proxy.Proxy.Schema.{map_or}
use mt_mcp_proxy.Proxy.World.{Env}
use mt_mcp_proxy.Proxy.ParamHeaders.{
  has_unsafe, base64_prefix, base64_suffix, requires_param_header_base64, wrap_base64,
  primitive_text, encode_text, encode_param_header_value, schema_properties, header_value,
  put_header, put_property, project, param_headers_for_tool,
}

-- Printable ASCII: no control character, so no line break, and nothing above 0x7e.
abbrev pub IsPrintable : String → Type 0
IsPrintable empty_text = Unit
IsPrintable (cons_char c s) = (0x20 ≤ code c) × (code c ≤ 0x7e) × IsPrintable s

has_unsafe-IsPrintable : (s : String) → has_unsafe s ≡ false → IsPrintable s
has_unsafe-IsPrintable empty_text h = tt
has_unsafe-IsPrintable (cons_char c s) h =
    (ground arith, ground arith, has_unsafe-IsPrintable s (ground arith))

append-IsPrintable : (s t : String) → IsPrintable s → IsPrintable t → IsPrintable (text_append s t)
append-IsPrintable empty_text t h k = subst IsPrintable (sym (append.nil t)) k
append-IsPrintable (cons_char c s) t (lo, hi, h) k =
    subst IsPrintable (sym (append.cons c s t)) (lo, hi, append-IsPrintable s t h k)

plain-IsPrintable : (s : String) → requires_param_header_base64 s ≡ false → IsPrintable s
unfolding requires_param_header_base64
plain-IsPrintable s h = elim (Bool-cases (s == "")) [
  | inl e ↦ subst IsPrintable (sym ((eq_iff s "").0 e)) tt
  | inr e ↦ has_unsafe-IsPrintable s (ground arith)
]

some-injective : {a b : String} → some a ≡ some b → a ≡ b
some-injective h = cc

module _ (env : Env) (safe : (s : String) → IsPrintable (env.base64 s)) where
  wrap_base64-IsPrintable : (s : String) → IsPrintable (wrap_base64 env s)
  unfolding wrap_base64
  wrap_base64-IsPrintable s =
      append-IsPrintable base64_prefix _ (has_unsafe-IsPrintable base64_prefix refl) (
        append-IsPrintable (env.base64 s) base64_suffix (safe s)
          (has_unsafe-IsPrintable base64_suffix refl))

  encode_text-IsPrintable :
      (o : Option String) (v : String) → encode_text env o ≡ some v → IsPrintable v
  encode_text-IsPrintable none v h = cc
  encode_text-IsPrintable (some s) v h = elim (Bool-cases (requires_param_header_base64 s)) [
    | inl e ↦ subst IsPrintable (some-injective (rw e at h)) (wrap_base64-IsPrintable s)
    | inr e ↦ subst IsPrintable (some-injective (rw e at h)) (plain-IsPrintable s e)
  ]

  header_value-IsPrintable :
      (o : Option Json) (v : String) → header_value env o ≡ some v → IsPrintable v
  unfolding encode_param_header_value
  header_value-IsPrintable none v h = cc
  header_value-IsPrintable (some null) v h = cc
  header_value-IsPrintable (some j) v h = encode_text-IsPrintable (primitive_text env j) v h

  -- Every value of a map is printable.
  abbrev ArePrintable : Dict String → Type 0
  ArePrintable [] = Unit
  ArePrintable ((k, v) ∷ m) = IsPrintable v × ArePrintable m

  insert-ArePrintable :
      (k v : String) (m : Dict String)
      → IsPrintable v
      → ArePrintable m
      → ArePrintable (insert k v m)
  unfolding insert
  insert-ArePrintable k v [] p h = (p, tt)
  insert-ArePrintable k v ((j, w) ∷ m) p (q, h) = elim (Bool-cases (j == k)) [
    | inl e ↦ rw e (p, h)
    | inr e ↦ rw e (q, insert-ArePrintable k v m p h)
  ]

  lookup-IsPrintable :
      (k v : String) (m : Dict String) → ArePrintable m → lookup k m ≡ some v → IsPrintable v
  unfolding lookup
  lookup-IsPrintable k v [] h e = cc
  lookup-IsPrintable k v ((j, w) ∷ m) (p, h) e = elim (Bool-cases (j == k)) [
    | inl same ↦ subst IsPrintable (some-injective (rw same at e)) p
    | inr differ ↦ lookup-IsPrintable k v m h (rw differ at e)
  ]

  put_header-ArePrintable :
      (name : String) (o : Option Json) (m : Dict String)
      → ArePrintable m
      → ArePrintable (put_header name (header_value env o) m)
  put_header-ArePrintable name o m h = elim (Option-cases (header_value env o)) [
    | inl e ↦ rw e h
    | inr (v, e) ↦ rw e (insert-ArePrintable _ v m (header_value-IsPrintable o v e) h)
  ]

  put_property-ArePrintable :
      (args : Dict Json) (prop : String) (a : Option Json) (m : Dict String)
      → ArePrintable m
      → ArePrintable (put_property env args prop a m)
  put_property-ArePrintable args prop none m h = h
  put_property-ArePrintable args prop (some a) m h = elim (Bool-cases (unmarshal_string a == "")) [
    | inl e ↦ rw e h
    | inr e ↦ rw e (put_header-ArePrintable (unmarshal_string a) (lookup prop args) m h)
  ]

  project-ArePrintable :
      (args : Dict Json) (ps : Dict (Option Json)) (m : Dict String)
      → ArePrintable m
      → ArePrintable (project env args ps m)
  unfolding project
  project-ArePrintable args [] m h = h
  project-ArePrintable args ((prop, a) ∷ ps) m h =
      project-ArePrintable args ps _ (put_property-ArePrintable args prop a m h)

  -- Every value that the arguments of a call put into a Mcp-Param header consists of printable ASCII
  -- characters only, whatever the arguments are (so that no argument can break the header's line),
  -- if the Base64 encoding does.
  pub param_headers_for_tool-IsPrintable :
      (tool : RawTool) (args : Option Json) (k v : String)
      → lookup k (param_headers_for_tool env tool args) ≡ some v
      → IsPrintable v
  unfolding param_headers_for_tool
  param_headers_for_tool-IsPrintable tool args k v h =
      lookup-IsPrintable k v (param_headers_for_tool env tool args)
        (of_schema (lookup "inputSchema" tool)) h
    where
      of_schema :
          (o : Option Json)
          → ArePrintable (elim o [
            | none ↦ []
            | some raw ↦ project env (map_or [] args) (schema_properties raw) []
          ])
      of_schema none = tt
      of_schema (some raw) = project-ArePrintable (map_or [] args) (schema_properties raw) [] tt

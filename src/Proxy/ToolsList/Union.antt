-- ===== src/Proxy/ToolsList/Union.antt =====
-- internal/proxy/handler.go: the union that `handleToolsList` builds.
use mathlib.Core.List.{append_assoc, append-nil}
use mt_mcp_proxy.Base.{
  String, ◌≡◌, refl, sym, ◌∙◌, ap, inl, inr, Option, none, some, List, [], ◌∷◌, ◌++◌, ◌==◌, eq_iff,
  Bool-cases, if◌then◌else◌,
}
use mt_mcp_proxy.Base.Dict.{lookup, lookup-insert}
use mt_mcp_proxy.Proxy.Mcp.{RawTool}
use mt_mcp_proxy.Proxy.Catalog.{TenantTools, tool_name}
use mt_mcp_proxy.Proxy.ToolsList.{
  Merge, no_tools, ids_or_nil, define, add_tool, add_tools, merge_views,
}

-- The tenant's id, once for each of the tools that has this name.
abbrev pub holds : String → String → List RawTool → List String
holds name id [] = []
holds name id (t ∷ ts) = (if tool_name t == name then id ∷ [] else []) ++ holds name id ts

-- The ids of the tenants that have a tool with this name, in the order of the views.
abbrev pub holders : String → List TenantTools → List String
holders name [] = []
holders name (v ∷ vs) = holds name v.tenant.id v.tools ++ holders name vs

abbrev pub or_first : Option RawTool → Option RawTool → Option RawTool
or_first none o = o
or_first (some t) o = some t

abbrev pub first_in : String → List RawTool → Option RawTool
first_in name [] = none
first_in name (t ∷ ts) = or_first (if tool_name t == name then some t else none) (first_in name ts)

-- The first definition of the tool, in the order of the views.
abbrev pub first_def : String → List TenantTools → Option RawTool
first_def name [] = none
first_def name (v ∷ vs) = or_first (first_in name v.tools) (first_def name vs)

or_first_assoc : (a b c : Option RawTool) → or_first (or_first a b) c ≡ or_first a (or_first b c)
or_first_assoc none b c = refl
or_first_assoc (some t) b c = refl

or_first-none : (a : Option RawTool) → or_first a none ≡ a
or_first-none none = refl
or_first-none (some t) = refl

define-having :
    (n : String) (t : RawTool) (o : Option RawTool) (m : Merge) → (define n t o m).having ≡ m.having
define-having n t none m = refl
define-having n t (some d) m = refl

define-defs :
    (n k : String) (t : RawTool) (o : Option RawTool) (m : Merge)
    → lookup n m.defs ≡ o
    → lookup k (define n t o m).defs ≡ or_first (lookup k m.defs) (if n == k then some t else none)
define-defs n k t none m e = lookup-insert n k t m.defs ∙ elim (Bool-cases (n == k)) [
  | inl q ↦ rw (q, ← (eq_iff n k).0 q, e) refl
  | inr q ↦ rw q (sym (or_first-none (lookup k m.defs)))
]
define-defs n k t (some d) m e = elim (Bool-cases (n == k)) [
  | inl q ↦ rw (q, ← (eq_iff n k).0 q, e) refl
  | inr q ↦ rw q (sym (or_first-none (lookup k m.defs)))
]

module _ (name : String) where
  -- What the merge holds for the name.
  abbrev ids : Merge → List String
  ids m = ids_or_nil (lookup name m.having)

  add_tool-having :
      (id : String) (t : RawTool) (m : Merge)
      → ids (add_tool id t m) ≡ ids m ++ (if tool_name t == name then id ∷ [] else [])
  unfolding add_tool
  add_tool-having id t m =
      ap ids_or_nil (
        lookup-insert (tool_name t) name _
          (define (tool_name t) t (lookup (tool_name t) m.defs) m).having
        ∙ ap
            (λ h.
              if tool_name t == name
              then some (ids_or_nil (lookup (tool_name t) m.having) ++ id ∷ [])
              else lookup name h)
            (define-having (tool_name t) t (lookup (tool_name t) m.defs) m))
      ∙ elim (Bool-cases (tool_name t == name)) [
        | inl e ↦ rw (e, (eq_iff (tool_name t) name).0 e) refl
        | inr e ↦ rw e (sym (append-nil (ids m)))
      ]

  add_tool-defs :
      (id : String) (t : RawTool) (m : Merge)
      → lookup name (add_tool id t m).defs
        ≡ or_first (lookup name m.defs) (if tool_name t == name then some t else none)
  unfolding add_tool
  add_tool-defs id t m = define-defs (tool_name t) name t (lookup (tool_name t) m.defs) m refl

  add_tools-having :
      (id : String) (ts : List RawTool) (m : Merge)
      → ids (add_tools id ts m) ≡ ids m ++ holds name id ts
  unfolding add_tools
  add_tools-having id [] m = sym (append-nil (ids m))
  add_tools-having id (t ∷ ts) m =
      add_tools-having id ts (add_tool id t m)
      ∙ ap (λ l. l ++ holds name id ts) (add_tool-having id t m)
      ∙ append_assoc (ids m) (if tool_name t == name then id ∷ [] else []) (holds name id ts)

  add_tools-defs :
      (id : String) (ts : List RawTool) (m : Merge)
      → lookup name (add_tools id ts m).defs ≡ or_first (lookup name m.defs) (first_in name ts)
  unfolding add_tools
  add_tools-defs id [] m = sym (or_first-none (lookup name m.defs))
  add_tools-defs id (t ∷ ts) m =
      add_tools-defs id ts (add_tool id t m)
      ∙ ap (λ o. or_first o (first_in name ts)) (add_tool-defs id t m)
      ∙ or_first_assoc (lookup name m.defs) (if tool_name t == name then some t else none)
          (first_in name ts)

  merge_views-having :
      (vs : List TenantTools) (m : Merge) → ids (merge_views vs m) ≡ ids m ++ holders name vs
  unfolding merge_views
  merge_views-having [] m = sym (append-nil (ids m))
  merge_views-having (v ∷ vs) m =
      merge_views-having vs (add_tools v.tenant.id v.tools m)
      ∙ ap (λ l. l ++ holders name vs) (add_tools-having v.tenant.id v.tools m)
      ∙ append_assoc (ids m) (holds name v.tenant.id v.tools) (holders name vs)

  merge_views-defs :
      (vs : List TenantTools) (m : Merge)
      → lookup name (merge_views vs m).defs ≡ or_first (lookup name m.defs) (first_def name vs)
  unfolding merge_views
  merge_views-defs [] m = sym (or_first-none (lookup name m.defs))
  merge_views-defs (v ∷ vs) m =
      merge_views-defs vs (add_tools v.tenant.id v.tools m)
      ∙ ap (λ o. or_first o (first_def name vs)) (add_tools-defs v.tenant.id v.tools m)
      ∙ or_first_assoc (lookup name m.defs) (first_in name v.tools) (first_def name vs)

  -- Of each tool name, the union that `handleToolsList` builds keeps the first definition in the
  -- order of the tenants, and the ids of all tenants that list a tool of that name, in that order.
  pub merge_views_lem :
      (vs : List TenantTools)
      → (lookup name (merge_views vs no_tools).defs ≡ first_def name vs)
        × (ids_or_nil (lookup name (merge_views vs no_tools).having) ≡ holders name vs)
  unfolding lookup
  merge_views_lem vs = (merge_views-defs vs no_tools, merge_views-having vs no_tools)

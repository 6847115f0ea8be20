-- ===== src/Proxy/ParamHeaders/Laws.antt =====
-- internal/proxy/paramheaders.go: `mergeHeaders`, and which values are wrapped.
use mt_mcp_proxy.Base.{String, ◌≡◌, refl, ◌∙◌, ap, Option, none, some, [], ◌∷◌, arith, eq_iff}
use mt_mcp_proxy.Base.Dict.{Dict, IsNodup, lookup, insert, lookup-insert}
use mt_mcp_proxy.Proxy.ParamHeaders.{merge_into, merge_headers}

abbrev pub or_else : Option String → Option String → Option String
or_else none o = o
or_else (some v) o = some v

or_else-none : (o : Option String) → or_else o none ≡ o
or_else-none none = refl
or_else-none (some v) = refl

lookup-merge_into :
    (k : String) (out m : Dict String)
    → IsNodup m
    → lookup k (merge_into out m) ≡ or_else (lookup k m) (lookup k out)
unfolding merge_into lookup
lookup-merge_into k out [] h = refl
lookup-merge_into k out ((j, v) ∷ m) (fresh, h) =
    ground (arith, lookup-merge_into k (insert j v out) m h, lookup-insert j k v out, eq_iff j k)

-- A header of `mergeHeaders(a, b)` is that of `b`, and where `b` has none, that of `a`. (Neither
-- map has a key twice.)
pub merge_headers_lem :
    (a b : Dict String) (k : String)
    → IsNodup a
    → IsNodup b
    → lookup k (merge_headers a b) ≡ or_else (lookup k b) (lookup k a)
unfolding merge_headers lookup
merge_headers_lem a b k ha hb =
    lookup-merge_into k (merge_into [] a) b hb
    ∙ ap (or_else (lookup k b)) (lookup-merge_into k [] a ha ∙ or_else-none (lookup k a))

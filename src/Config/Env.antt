-- ===== src/Config/Env.antt =====
-- config.go: `expandRefs` and `expandEnv`. The environment of the process, `os.LookupEnv`, is a
-- parameter. Go ranges over a header map in no fixed order, which decides only which of several
-- unset references an error names.
pub mod References
pub mod Splits
pub mod Replace
pub mod Expand
use Prim.Native.Char.{Char, code}
use Prim.Native.String.{[] as empty_text, ◌∷◌ as cons_char}
use mt_mcp_proxy.Base.{
  wrap_error, ℕ, zero, suc, ◌+◌, String, Bool, not, ◌&&◌, ◌||◌, Option, none, some, List, [], ◌∷◌,
  ◌==◌, Result, ok, err, ◌>>=◌, if◌then◌else◌, leb, nat_eq,
}
use mt_mcp_proxy.Base.Dict.{Dict}
use mt_mcp_proxy.Base.Text.{contains_text, concat, text_length}
use mt_mcp_proxy.Config.{
  BackendConfig, TenantConfig, Config, ConfigError, credential_unset, header_unset,
  tenant_credential_unset, tenant_header_unset,
}

unfoldable pub is_name_start : ℕ → Bool
is_name_start c = (leb b'A' c && leb c b'Z') || (leb b'a' c && leb c b'z') || nat_eq c b'_'

unfoldable pub is_name_char : ℕ → Bool
unfolding is_name_start
is_name_char c = is_name_start c || (leb b'0' c && leb c b'9')

abbrev pub longer : Char → Option String → Option String
longer c none = none
longer c (some name) = some (cons_char c name)

-- The rest of a name, up to its brace.
unfoldable pub scan_name : String → Option String
unfolding is_name_char
scan_name empty_text = none
scan_name (cons_char c s) =
    let rest = scan_name s in
    if nat_eq (code c) b'}'
    then some empty_text
    else if is_name_char (code c)
    then longer c rest
    else none

unfoldable pub first_name : String → Option String
unfolding is_name_start
first_name empty_text = none
first_name (cons_char c s) = if is_name_start (code c) then longer c (scan_name s) else none

-- `envRef`, where the text starts with a match: the name that it captures.
unfoldable pub match_ref : String → Option String
match_ref empty_text = none
match_ref (cons_char c empty_text) = none
match_ref (cons_char c (cons_char d s)) =
    if nat_eq (code c) b'$' && nat_eq (code d) b'{' then first_name s else none

-- What the matches of `envRef` cut a text into.
pub data Piece : Type 0 where
  char : Char → Piece
  ref : String → Piece

-- The leftmost matches, none within another: `skip` is how much of a match is left.
unfoldable pub pieces : ℕ → String → List Piece
pieces skip empty_text = []
pieces (suc skip) (cons_char c s) = pieces skip s
pieces zero (cons_char c s) = elim (match_ref (cons_char c s)) [
  | none ↦ char c ∷ pieces zero s
  | some name ↦ ref name ∷ pieces (suc (suc (text_length name))) s
]

-- The environment variable, if set.
abbrev pub LookupEnv : Type 0
LookupEnv = String → Option String

module _ (lookup_env : LookupEnv) where
  -- The callback of `ReplaceAllStringFunc`, piece by piece, with the variable `missing`.
  unfoldable pub replace_pieces : String → List Piece → String × String
  unfolding concat
  replace_pieces missing [] = (empty_text, missing)
  replace_pieces missing (char c ∷ ps) =
      let (out, last) = replace_pieces missing ps in (cons_char c out, last)
  replace_pieces missing (ref name ∷ ps) = elim (lookup_env name) [
    | none ↦ replace_pieces name ps
    | some v ↦ (let (out, last) = replace_pieces missing ps in (concat v out, last))
  ]

  -- The error is the name of the variable that is not set.
  unfoldable pub expand_refs : String → Result String String
  expand_refs s =
      if not (contains_text s "${")
      then ok s
      else let (out, missing) = replace_pieces "" (pieces 0 s) in
        if not (missing == "") then err missing else ok out

  -- `for k, v := range m { ...; m[k] = expanded }`; an error carries the key.
  unfoldable pub expand_headers : Dict String → Result (String × String) (Dict String)
  expand_headers [] = ok []
  expand_headers ((k, v) ∷ m) = do
    expanded ← wrap_error (λ missing. (k, missing)) (expand_refs v)
    rest ← expand_headers m
    ok ((k, expanded) ∷ rest)

  unfoldable pub expand_tenant : BackendConfig → TenantConfig → Result ConfigError TenantConfig
  expand_tenant b t = do
    credential ← wrap_error (tenant_credential_unset b.name t.id) (expand_refs t.credential)
    headers ← wrap_error (tenant_header_unset b.name t.id) (expand_headers t.headers)
    ok (record t { credential = credential; headers = headers })

  unfoldable pub expand_tenants :
      BackendConfig → List TenantConfig → Result ConfigError (List TenantConfig)
  expand_tenants b [] = ok []
  expand_tenants b (t ∷ ts) = do t' ← expand_tenant b t; ts' ← expand_tenants b ts; ok (t' ∷ ts')

  unfoldable pub expand_backend : BackendConfig → Result ConfigError BackendConfig
  expand_backend b = do
    credential ← wrap_error (credential_unset b.name) (expand_refs b.credential)
    headers ← wrap_error (header_unset b.name) (expand_headers b.headers)
    tenants ← expand_tenants b b.tenants
    ok (record b { credential = credential; headers = headers; tenants = tenants })

  unfoldable pub expand_backends : List BackendConfig → Result ConfigError (List BackendConfig)
  expand_backends [] = ok []
  expand_backends (b ∷ bs) = do b' ← expand_backend b; bs' ← expand_backends bs; ok (b' ∷ bs')

  unfoldable pub expand_env : Config → Result ConfigError Config
  expand_env c = do backends ← expand_backends c.backends; ok (record c { backends = backends })

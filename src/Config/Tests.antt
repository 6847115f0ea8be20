-- ===== src/Config/Tests.antt =====
-- A configuration file with references and without defaults, as it is loaded.
use mt_mcp_proxy.Base.{
  String, ◌≡◌, refl, ◌↔◌, Option, none, some, [], ◌∷◌, ◌==◌, ok, err, if◌then◌else◌,
}
use mt_mcp_proxy.Config.{Config, credential_unset, duplicate_tenant}
use mt_mcp_proxy.Base.Dict.{has, insert, lookup}
use mt_mcp_proxy.Base.Text.{contains_text, has_prefix, concat, text_length}
use mt_mcp_proxy.Config.Env.{
  LookupEnv, expand_env, expand_backends, expand_backend, expand_headers, expand_tenants,
  expand_tenant, expand_refs, replace_pieces, pieces, match_ref, first_name, scan_name,
  is_name_char, is_name_start,
}
use mt_mcp_proxy.Config.Env.Replace.{Expands, Mentions}
use mt_mcp_proxy.Config.Env.Expand.{expand_refs_iff, expand_refs-eq-err}
use mt_mcp_proxy.Config.Validate.{
  apply_defaults, default_backends, default_backend, validate, validate_auth, validate_backends,
  validate_backend, validate_tenants,
}
use mt_mcp_proxy.Config.Validate.Usable.{IsUsable}
use mt_mcp_proxy.Config.Validate.Laws.{validate_iff}
use mt_mcp_proxy.Config.Load.{load}
use mt_mcp_proxy.Config.Load.Laws.{Loads, load_iff}
use mt_mcp_proxy.Fixtures.{gitlab_config, usable_config}

abbrev process_env : LookupEnv
process_env k = if k == "GITLAB_TOKEN" then some "s3cret" else none

abbrev static_file : Config
static_file = record {
  server = record { listen = ""; path = ""; external_url = "" };
  auth = record usable_config.auth { groups_claim = "" };
  backends = record gitlab_config { credential = "${GITLAB_TOKEN}" } ∷ [];
  observability = record { metrics_listen = ""; metrics_path = "" };
}

abbrev two_files : String → Option String
two_files path = if path == "proxy.yaml" then some "gitlab" else none

abbrev decode_yaml : String → Option Config
decode_yaml raw = if raw == "gitlab" then some static_file else none

load_runs : load process_env two_files decode_yaml "proxy.yaml" ≡ ok usable_config
unfolding load apply_defaults default_backends default_backend expand_env expand_backends
    expand_backend expand_headers expand_tenants expand_tenant expand_refs contains_text has_prefix
    replace_pieces concat pieces match_ref first_name scan_name is_name_char is_name_start
    text_length validate validate_auth validate_backends validate_backend validate_tenants has
    insert lookup
load_runs = refl

load_unset :
    load (λ k. none) two_files decode_yaml "proxy.yaml"
    ≡ err (credential_unset "gitlab" "GITLAB_TOKEN")
unfolding load apply_defaults default_backends default_backend expand_env expand_backends
    expand_backend expand_headers expand_tenants expand_tenant expand_refs contains_text has_prefix
    replace_pieces concat pieces match_ref first_name scan_name is_name_char is_name_start
    text_length
load_unset = refl

-- A reference in the middle of a text; what is no reference stays.
expand_middle :
    expand_refs process_env "a $${GITLAB_TOKEN} ${1} ${GITLAB_TOKEN"
    ≡ ok "a $s3cret ${1} ${GITLAB_TOKEN"
unfolding expand_refs contains_text has_prefix replace_pieces concat pieces match_ref first_name
    scan_name is_name_char is_name_start text_length
expand_middle = refl

-- One tenant id in two backends.
validate_twice :
    validate (record usable_config {
      backends =
          record gitlab_config { protocol_version = "2025-03-26" }
          ∷ record gitlab_config { name = "github"; protocol_version = "2026-07-28" }
          ∷ [];
    })
    ≡ err (duplicate_tenant "acme" "gitlab" "github")
unfolding validate validate_auth validate_backends validate_backend validate_tenants has insert
    lookup
validate_twice = refl

load_iff_example :
    (load process_env two_files decode_yaml "proxy.yaml" ≡ ok usable_config)
    ↔ Loads process_env two_files decode_yaml "proxy.yaml" usable_config
load_iff_example = load_iff process_env two_files decode_yaml "proxy.yaml" usable_config

validate_iff_example : (validate usable_config ≡ ok tt) ↔ IsUsable usable_config
validate_iff_example = validate_iff usable_config

expand_refs_iff_example :
    (expand_refs process_env "Bearer ${GITLAB_TOKEN}" ≡ ok "Bearer s3cret")
    ↔ Expands process_env "Bearer ${GITLAB_TOKEN}" "Bearer s3cret"
expand_refs_iff_example = expand_refs_iff process_env "Bearer ${GITLAB_TOKEN}" "Bearer s3cret"

missing_token : expand_refs process_env "${GITLAB_TOKEN}${OTHER}" ≡ err "OTHER"
unfolding expand_refs contains_text has_prefix replace_pieces concat pieces match_ref first_name
    scan_name is_name_char is_name_start text_length
missing_token = refl

expand_refs-eq-err_example :
    (process_env "OTHER" ≡ none) × Mentions "OTHER" "${GITLAB_TOKEN}${OTHER}"
expand_refs-eq-err_example =
    expand_refs-eq-err process_env "${GITLAB_TOKEN}${OTHER}" "OTHER" missing_token

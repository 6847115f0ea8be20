-- ===== src/Config/Load.antt =====
-- config.go: `Load`. Reading the file and decoding its YAML are parameters: `none` is their error.
pub mod Laws
use mt_mcp_proxy.Base.{String, Option, none, some, Result, ok, err, ◌>>=◌, ◌>>◌}
use mt_mcp_proxy.Config.{Config, ConfigError, read_config, parse_config}
use mt_mcp_proxy.Config.Env.{LookupEnv, expand_env}
use mt_mcp_proxy.Config.Validate.{apply_defaults, validate}

abbrev pub or_fail {ℓ} : {A : Type ℓ} → Option A → ConfigError → Result ConfigError A
or_fail none e = err e
or_fail (some a) e = ok a

unfoldable pub load :
    LookupEnv
    → (String → Option String)
    → (String → Option Config)
    → String
    → Result ConfigError Config
load lookup_env read_file unmarshal path = do
  raw ← or_fail (read_file path) read_config
  parsed ← or_fail (unmarshal raw) parse_config
  c ← expand_env lookup_env (apply_defaults parsed)
  validate c
  ok c

-- ===== src/Cli/Flags.antt =====
-- The persistent flags of cli/cmd/flowctl/root.go with their defaults from the environment.
-- strconv.ParseBool accepts the words below.
use flow_pipe.Prelude.{Bool, true, false, Option, none, some, [], ◌∷◌, if◌then◌else◌}
use flow_pipe.Text.{Text, codes}
use flow_pipe.Api.Config.Load.{Flags, flag_string, flag_bool, is_one_of}
use flow_pipe.Cli.{RootFlags}

-- os.LookupEnv
abbrev pub LookupEnv : Type 0
LookupEnv = Text → Option Text

-- os.Getenv
abbrev pub getenv : LookupEnv → Text → Text
getenv env key = elim (env key) [ none ↦ [] | some value ↦ value ]

-- strconv.ParseBool
abbrev pub parse_bool : Text → Option Bool
parse_bool s =
    if is_one_of
      (codes "1" ∷ codes "t" ∷ codes "T" ∷ codes "true" ∷ codes "TRUE" ∷ codes "True" ∷ []) s
    then some true
    else if is_one_of
        (codes "0" ∷ codes "f" ∷ codes "F" ∷ codes "false" ∷ codes "FALSE" ∷ codes "False" ∷ []) s
    then some false
    else none

-- envBoolDefault
abbrev pub env_bool_default : LookupEnv → Text → Bool → Bool
env_bool_default env key fallback = elim (env key) [
  | none ↦ fallback
  | some value ↦ elim (parse_bool value) [ none ↦ fallback | some parsed ↦ parsed ]
]

-- init
abbrev pub settings : LookupEnv → Flags → RootFlags
settings env flags = record {
  api_key = flag_string flags (codes "api-key") (getenv env (codes "FLOW_API_KEY"));
  grpc_tls_enabled =
      flag_bool flags (codes "grpc-tls-enabled")
        (env_bool_default env (codes "FLOW_GRPC_TLS_ENABLED") false);
  grpc_tls_cert_file =
      flag_string flags (codes "grpc-tls-cert") (getenv env (codes "FLOW_GRPC_TLS_CERT"));
  grpc_tls_server_name =
      flag_string flags (codes "grpc-tls-server-name")
        (getenv env (codes "FLOW_GRPC_TLS_SERVER_NAME"));
}

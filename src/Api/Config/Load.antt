-- ===== src/Api/Config/Load.antt =====
-- Load of api/internal/config/load.go, with env.go and util.go beside it. The environment is a
-- function (os.Getenv), and so is what the command line sets (flag.Parse). strings.ToLower is by ASCII
-- letters here: no other character has one of the letters of the accepted words as its lower case.
pub mod Secured
mod Tests
use flow_pipe.Prelude.{
  ℕ, Bool, true, false, ◌||◌, Option, none, some, List, [], ◌∷◌, map, ◌==◌, if◌then◌else◌,
}
use flow_pipe.Text.{Text, codes, text_eq}
use flow_pipe.Text.FilePath.{is_empty}
use flow_pipe.Api.Auth.{lower_byte}
use flow_pipe.Api.Config.{Config}

abbrev pub Env : Type 0
Env = Text → Text

-- The flags that the command line gives.
pub record Flags : Type 0 where
  pub strings : Text → Option Text
  pub bools : Text → Option Bool

-- envOrDefault
abbrev pub env_or_default : Env → Text → Text → Text
env_or_default env key def = if is_empty (env key) then def else env key

abbrev pub is_one_of : List Text → Text → Bool
is_one_of [] s = false
is_one_of (w ∷ ws) s = text_eq w s || is_one_of ws s

abbrev pub true_words : List Text
true_words = codes "1" ∷ codes "true" ∷ codes "t" ∷ codes "yes" ∷ codes "y" ∷ []

abbrev pub false_words : List Text
false_words = codes "0" ∷ codes "false" ∷ codes "f" ∷ codes "no" ∷ codes "n" ∷ []

-- envBoolOrDefault
abbrev pub env_bool_or_default : Env → Text → Bool → Bool
env_bool_or_default env key def =
    let v = map lower_byte (env key) in
    if is_empty (env key)
    then def
    else if is_one_of true_words v
    then true
    else if is_one_of false_words v
    then false
    else def

-- strings.Split(v, ",")
abbrev cons_byte : ℕ → List Text → List Text
cons_byte c [] = (c ∷ []) ∷ []
cons_byte c (w ∷ ws) = (c ∷ w) ∷ ws

unfoldable pub split_at_comma : Text → List Text
split_at_comma [] = [] ∷ []
split_at_comma (c ∷ s) =
    let rest = split_at_comma s in if c == 44 then [] ∷ rest else cons_byte c rest

unfoldable pub drop_empty : List Text → List Text
drop_empty [] = []
drop_empty (p ∷ ps) = let rest = drop_empty ps in if is_empty p then rest else p ∷ rest

-- splitComma
unfoldable pub split_comma : Text → List Text
unfolding split_at_comma drop_empty
split_comma v = drop_empty (split_at_comma v)

abbrev pub or_given {ℓ} : {A : Type ℓ} → Option A → A → A
or_given none def = def
or_given (some a) def = a

-- flag.String and flag.Bool, after flag.Parse
abbrev pub flag_string : Flags → Text → Text → Text
flag_string flags name def = or_given (flags.strings name) def

abbrev pub flag_bool : Flags → Text → Bool → Bool
flag_bool flags name def = or_given (flags.bools name) def

-- Load
unfoldable pub load : Env → Flags → Config
unfolding split_comma
load env flags = record {
  grpc_addr =
      flag_string flags (codes "grpc-addr")
        (env_or_default env (codes "FLOW_GRPC_ADDR") (codes ":9090"));
  http_addr =
      flag_string flags (codes "http-addr")
        (env_or_default env (codes "FLOW_HTTP_ADDR") (codes ":8080"));
  etcd_endpoints = split_comma (
      flag_string flags (codes "etcd")
        (env_or_default env (codes "ETCD_ENDPOINTS") (codes "http://127.0.0.1:2379")));
  otlp_endpoint =
      flag_string flags (codes "otel-endpoint")
        (env_or_default env (codes "OTEL_EXPORTER_OTLP_ENDPOINT") (codes "localhost:4317"));
  service_name =
      flag_string flags (codes "service-name")
        (env_or_default env (codes "OTEL_SERVICE_NAME") (codes "flow-api"));
  observability_enabled =
      flag_bool flags (codes "observability-enabled")
        (env_bool_or_default env (codes "FLOW_OBSERVABILITY_ENABLED") false);
  log_level =
      flag_string flags (codes "log-level")
        (env_or_default env (codes "FLOW_LOG_LEVEL") (codes "info"));
  auth_enabled =
      flag_bool flags (codes "auth-enabled")
        (env_bool_or_default env (codes "FLOW_AUTH_ENABLED") false);
  api_key = flag_string flags (codes "api-key") (env_or_default env (codes "FLOW_API_KEY") []);
  http_tls_enabled =
      flag_bool flags (codes "http-tls-enabled")
        (env_bool_or_default env (codes "FLOW_HTTP_TLS_ENABLED") false);
  http_tls_cert_file =
      flag_string flags (codes "http-tls-cert")
        (env_or_default env (codes "FLOW_HTTP_TLS_CERT") []);
  http_tls_key_file =
      flag_string flags (codes "http-tls-key") (env_or_default env (codes "FLOW_HTTP_TLS_KEY") []);
  grpc_tls_enabled =
      flag_bool flags (codes "grpc-tls-enabled")
        (env_bool_or_default env (codes "FLOW_GRPC_TLS_ENABLED") false);
  grpc_tls_cert_file =
      flag_string flags (codes "grpc-tls-cert")
        (env_or_default env (codes "FLOW_GRPC_TLS_CERT") []);
  grpc_tls_key_file =
      flag_string flags (codes "grpc-tls-key") (env_or_default env (codes "FLOW_GRPC_TLS_KEY") []);
  grpc_tls_server_name =
      flag_string flags (codes "grpc-tls-server-name")
        (env_or_default env (codes "FLOW_GRPC_TLS_SERVER_NAME") []);
}

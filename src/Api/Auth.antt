-- ===== src/Api/Auth.antt =====
-- Authentication by a shared key: api/internal/server/auth.go. A handler is a call of the server
-- behind it. strings.ToLower is by ASCII letters here: no other character has one of the letters of
-- "bearer" as its lower case.
pub mod Keys
mod Tests
use flow_pipe.Prelude.{
  ℕ, Bool, true, false, ◌&&◌, ◌||◌, not, List, [], ◌∷◌, map, ◌+◌, leb, drop, if◌then◌else◌,
}
use flow_pipe.Text.{Text, codes, text_eq, has_prefix}
use flow_pipe.Text.FilePath.{is_empty}
use flow_pipe.Text.Spaces.{trim_space}
use flow_pipe.Remote.{Result, ok, err, World, Remote}
use flow_pipe.Api.Config.{Config}

abbrev pub bearer_prefix : Text
bearer_prefix = codes "bearer "

abbrev pub lower_byte : ℕ → ℕ
lower_byte c = if leb 65 c && leb c 90 then c + 32 else c

-- parseBearerToken
unfoldable pub parse_bearer_token : Text → Text
unfolding trim_space has_prefix
parse_bearer_token value =
    let v = trim_space value in
    if is_empty v
    then []
    else if not (has_prefix bearer_prefix (map lower_byte v))
    then []
    else trim_space (drop 7 v)

-- firstBearerToken
unfoldable pub first_bearer_token : List Text → Text
unfolding parse_bearer_token
first_bearer_token [] = []
first_bearer_token (value ∷ values) =
    let rest = first_bearer_token values in
    let token = parse_bearer_token value in if not (is_empty token) then token else rest

pub data ConfigError : Type 0 where
  api_key_empty : ConfigError
  http_cert_empty http_key_empty : ConfigError
  grpc_cert_empty grpc_key_empty grpc_server_name_empty : ConfigError

unfoldable pub ensure_api_key_configured : Config → Result ConfigError Unit
unfolding trim_space
ensure_api_key_configured cfg =
    if not cfg.auth_enabled
    then ok tt
    else if is_empty (trim_space cfg.api_key)
    then err api_key_empty
    else ok tt

unfoldable pub ensure_http_server_tls_configured : Config → Result ConfigError Unit
unfolding trim_space
ensure_http_server_tls_configured cfg =
    if not cfg.http_tls_enabled
    then ok tt
    else if is_empty (trim_space cfg.http_tls_cert_file)
    then err http_cert_empty
    else if is_empty (trim_space cfg.http_tls_key_file)
    then err http_key_empty
    else ok tt

unfoldable pub ensure_grpc_server_tls_configured : Config → Result ConfigError Unit
unfolding trim_space
ensure_grpc_server_tls_configured cfg =
    if not cfg.grpc_tls_enabled
    then ok tt
    else if is_empty (trim_space cfg.grpc_tls_cert_file)
    then err grpc_cert_empty
    else if is_empty (trim_space cfg.grpc_tls_key_file)
    then err grpc_key_empty
    else if is_empty (trim_space cfg.grpc_tls_server_name)
    then err grpc_server_name_empty
    else ok tt

-- The errors of a gRPC method behind the interceptor.
pub data RpcError (E : Type 0) : Type 0 where
  missing_api_key : RpcError E
  invalid_api_key : RpcError E
  handler_failed : E → RpcError E

pub data HttpAnswer (A : Type 0) : Type 0 where
  unauthorized : HttpAnswer A
  passed_on : A → HttpAnswer A

module _ {S E A : Type 0} where
  abbrev pub handled : Result E A × World S → Result (RpcError E) A × World S
  handled (ok a, w) = (ok a, w)
  handled (err e, w) = (err (handler_failed e), w)

  -- apiKeyUnaryInterceptor, for the values of the metadata key "authorization".
  unfoldable pub api_key_unary_interceptor :
      Config → List Text → Remote S E A → Remote S (RpcError E) A
  unfolding first_bearer_token text_eq
  api_key_unary_interceptor cfg values handler w =
      let token = first_bearer_token values in
      if not cfg.auth_enabled
      then handled (handler w)
      else if is_empty token
      then (err missing_api_key, w)
      else if not (text_eq token cfg.api_key)
      then (err invalid_api_key, w)
      else handled (handler w)

module _ {W A : Type 0} where
  abbrev pub passed : A × W → HttpAnswer A × W
  passed (a, w) = (passed_on a, w)

  -- apiKeyHTTPMiddleware, for the value of the header Authorization.
  unfoldable pub api_key_http_middleware : Config → Text → (W → A × W) → W → HttpAnswer A × W
  unfolding first_bearer_token text_eq
  api_key_http_middleware cfg header next w =
      let token = first_bearer_token (header ∷ []) in
      if not cfg.auth_enabled
      then passed (next w)
      else if is_empty token || not (text_eq token cfg.api_key)
      then (unauthorized, w)
      else passed (next w)

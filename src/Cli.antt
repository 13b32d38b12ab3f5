-- ===== src/Cli.antt =====
-- The command line client: cli/cmd/flowctl. What surrounds it, the files, the encodings, TLS and the
-- connections, is a parameter. The error texts are constructors, and the printing of a reply is left out.
pub mod Flags
pub mod Loader
pub mod Flows
pub mod Schemas
pub mod Calls
pub mod Admission
pub mod Submitted
pub mod Versions
mod Tests
use flow_pipe.Prelude.{
  Bool, true, false, ◌&&◌, not, Option, List, [], ◌∷◌, ◌++◌, map, if◌then◌else◌,
}
use flow_pipe.Text.{Text, codes, has_prefix}
use flow_pipe.Text.FilePath.{is_empty}
use flow_pipe.Text.Spaces.{trim_space}
use flow_pipe.Proto.{FlowSpec}
use flow_pipe.Remote.{Result, ok, err, Outcome, served, refused, lost, World, Remote}
use flow_pipe.Backend.{Backend, StoreError}
use flow_pipe.Specs.Validate.{ValidationError}
use flow_pipe.Api.Config.{Config}
use flow_pipe.Api.Auth.{lower_byte, bearer_prefix, RpcError, api_key_unary_interceptor}

-- The persistent flags of root.go that the commands read: its package variables.
pub record RootFlags : Type 0 where
  pub api_key : Text
  pub grpc_tls_enabled : Bool
  pub grpc_tls_cert_file : Text
  pub grpc_tls_server_name : Text

-- What is outside the program: the files and standard input, the decoders that the loader calls, the
-- local runtime, the TLS credentials of a certificate and a server name, which addresses can be
-- connected to, and what becomes of the one call that a command makes.
pub record Surroundings : Type 1 where
  pub Yaml : Type 0
  pub read_file : Text → Option Text
  pub stdin : Option Text
  pub unmarshal_yaml : Text → Option Yaml
  pub marshal_json : Yaml → Option Text
  pub unmarshal_spec : Text → Option FlowSpec
  pub run_runtime : Text → Bool
  pub tls_credentials : Text → Text → Bool
  pub connects : Text → Bool
  pub link : Outcome

pub data CliError : Type 0 where
  read_failed : Text → CliError
  yaml_decode_failed json_failed spec_decode_failed : CliError
  invalid : ValidationError → CliError
  runtime_failed : CliError
  api_address_required tls_cert_empty tls_server_name_empty tls_config_failed : CliError
  connect_failed : Text → CliError
  flow_name_required version_required : CliError
  unsupported_schema_format invalid_schema_version : Text → CliError
  schema_version_zero schema_file_required read_stdin_failed : CliError
  call_failed : RpcError StoreError → CliError
  call_lost : CliError

-- A connection: the authorization values that go with each call, and whether it is over TLS.
pub record Connection : Type 0 where
  pub authorization : List Text
  pub secured : Bool

-- formatBearerToken
unfoldable pub format_bearer_token : Text → Text
unfolding trim_space has_prefix
format_bearer_token token =
    let value = trim_space token in
    if is_empty value
    then []
    else if has_prefix bearer_prefix (map lower_byte value)
    then value
    else codes "Bearer " ++ value

-- GetRequestMetadata of apiKeyCredentials
abbrev pub request_metadata : Text → List Text
request_metadata token = if is_empty token then [] else token ∷ []

module _ (M : Surroundings) where
  -- dialAPI
  unfoldable pub dial_api : RootFlags → Text → Result CliError Connection
  unfolding format_bearer_token trim_space
  dial_api settings addr =
      let tls = settings.grpc_tls_enabled in
      if is_empty addr
      then err api_address_required
      else if tls && is_empty (trim_space settings.grpc_tls_cert_file)
      then err tls_cert_empty
      else if tls && is_empty (trim_space settings.grpc_tls_server_name)
      then err tls_server_name_empty
      else if tls
          && not (M.tls_credentials settings.grpc_tls_cert_file settings.grpc_tls_server_name)
      then err tls_config_failed
      else if not (M.connects addr)
      then err (connect_failed addr)
      else ok (record {
        authorization =
            if not (is_empty (trim_space settings.api_key))
            then request_metadata (format_bearer_token settings.api_key)
            else [];
        secured = tls;
      })

module _ {S A : Type 0} where
  abbrev pub answered : Result (RpcError StoreError) A × World S → Result CliError A × World S
  answered (ok a, w) = (ok a, w)
  answered (err e, w) = (err (call_failed e), w)

  -- A call that is answered, or does not arrive, or whose answer is lost or too late.
  abbrev pub over : Outcome → Remote S (RpcError StoreError) A → Remote S CliError A
  over served m w = answered (m w)
  over refused m w = (err call_lost, w)
  over lost m w = (err call_lost, (m w).1)

  -- dialAPI, then a method of the API server with the configuration `cfg`.
  unfoldable pub call :
      Surroundings → Config → RootFlags → Text → Remote S StoreError A → Remote S CliError A
  unfolding dial_api api_key_unary_interceptor
  call M cfg settings addr method w = elim (dial_api M settings addr) [
    | err e ↦ (err e, w)
    | ok conn ↦ over M.link (api_key_unary_interceptor cfg conn.authorization method) w
  ]

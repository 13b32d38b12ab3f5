-- ===== src/Cli/Schemas.antt =====
-- The commands on schemas: cli/cmd/flowctl/schema.go.
use flow_pipe.Prelude.{ℕ, ◌^◌, ltb, Option, none, some, [], ◌∷◌, map, ◌==◌, if◌then◌else◌}
use flow_pipe.Text.{Text, codes, text_eq}
use flow_pipe.Text.Decimal.{parse_uint}
use flow_pipe.Text.FilePath.{is_empty}
use flow_pipe.Text.Spaces.{trim_space}
use flow_pipe.Proto.{SchemaFormat}
use flow_pipe.Remote.{Result, ok, err, Remote, lift, or_else, ◌>>=◌}
use flow_pipe.Backend.{Backend}
use flow_pipe.Api.Config.{Config}
use flow_pipe.Api.Config.Load.{is_one_of}
use flow_pipe.Api.Auth.{lower_byte}
use flow_pipe.Api.Registry.{SchemaRequest, SchemaResponse, serve_schema}
use flow_pipe.Cli.{
  Surroundings, RootFlags, CliError, read_failed, unsupported_schema_format, invalid_schema_version,
  schema_version_zero, schema_file_required, read_stdin_failed, call,
}

-- parseQueueSchemaFormat
unfoldable pub parse_queue_schema_format : Text → Result CliError SchemaFormat
unfolding trim_space
parse_queue_schema_format value =
    let v = map lower_byte (trim_space value) in
    if is_one_of (codes "arrow" ∷ codes "apache-arrow" ∷ []) v
    then ok SchemaFormat.arrow
    else if is_one_of (codes "json" ∷ []) v
    then ok SchemaFormat.json
    else if is_one_of (codes "protobuf" ∷ codes "proto" ∷ []) v
    then ok SchemaFormat.protobuf
    else if is_one_of (codes "flatbuffers" ∷ codes "flatbuffer" ∷ []) v
    then ok SchemaFormat.flatbuffers
    else err (unsupported_schema_format value)

abbrev pub within_uint32 : Option ℕ → Option ℕ
within_uint32 none = none
within_uint32 (some v) = if ltb v (2 ^ 32) then some v else none

-- strconv.ParseUint(value, 10, 32)
abbrev pub parse_uint32 : Text → Option ℕ
parse_uint32 value = within_uint32 (parse_uint value)

abbrev pub version_of : Text → Option ℕ → Result CliError ℕ
version_of value none = err (invalid_schema_version value)
version_of value (some version) = if version == 0 then err schema_version_zero else ok version

-- parseSchemaVersion
unfoldable pub parse_schema_version : Text → Result CliError ℕ
parse_schema_version value = version_of value (parse_uint32 value)

module _ (M : Surroundings) where
  -- readSchemaPayload
  abbrev pub read_schema_payload : Text → Result CliError Text
  read_schema_payload path =
      if is_empty path
      then err schema_file_required
      else if text_eq path (codes "-")
      then or_else M.stdin read_stdin_failed
      else or_else (M.read_file path) (read_failed path)

  module _ (B : Backend) (cfg : Config) (settings : RootFlags) (addr : Text) where
    abbrev pub Command : Type 0
    Command = Remote B.etcd.Server CliError SchemaResponse

    abbrev send : SchemaRequest → Command
    send r = call M cfg settings addr (serve_schema B r)

    -- schemaCreateCmd
    unfoldable pub schema_create : Text → Text → Text → Command
    unfolding parse_queue_schema_format call serve_schema
    schema_create format_flag file id = lift (parse_queue_schema_format format_flag) >>= λ format.
        lift (read_schema_payload file) >>= λ payload. send (
          SchemaRequest.create_schema
            (some (record { schema_id = id; version = 0; format = format; raw_schema = payload })))

    -- schemaGetCmd
    unfoldable pub schema_get : Text → Text → Command
    unfolding parse_schema_version call serve_schema
    schema_get id value =
        lift (parse_schema_version value) >>= λ version. send (SchemaRequest.get_schema id version)

    -- schemaListCmd
    abbrev pub schema_list : Text → Command
    schema_list id = send (SchemaRequest.list_schema_versions id)

    -- schemaDeleteCmd
    abbrev pub schema_delete : Text → Command
    schema_delete id = send (SchemaRequest.delete_schema id)

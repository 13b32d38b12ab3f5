-- ===== src/Cli/Tests.antt =====
-- Commands against the concrete table, and the theorems at them.
use flow_pipe.Text.FilePath.Plain.{jobs, jobs-IsPlain}
use flow_pipe.Prelude.{ℕ, ◌≡◌, refl, true, false, none, some, [], ◌∷◌, arith}
use flow_pipe.Text.{Text, codes, text_eq, has_prefix, cut_prefix}
use flow_pipe.Text.Decimal.{format_uint, parse_uint}
use flow_pipe.Text.FilePath.{path_join}
use flow_pipe.Text.FilePath.Laws.{IsPlain, is_plain, is_plain-IsPlain}
use flow_pipe.Text.Order.{text_lt}
use flow_pipe.Text.Spaces.{trim_space, trim_left, trim_right, cut_all, cut_any}
use flow_pipe.Proto.{SchemaDefinition, SchemaFormat}
use flow_pipe.Remote.{Result, ok, err, served, World, quiet, ◌>>=◌, lift, pure, raise}
use flow_pipe.Etcd.Table.{table, Entries, find, put_list}
use flow_pipe.Etcd.Table.Codecs.{status_codec}
use flow_pipe.Etcd.Table.Schemas.{schema_codec, marshal_schema, mark}
use flow_pipe.Etcd.Table.Staged.{staged, staged_codec, marshal_staged}
use flow_pipe.Backend.{Backend, get_key, commit}
use flow_pipe.Specs.Validate.{validate, validate_queues, validate_stages, validate_stage}
use flow_pipe.Specs.Validate.Rules.{IsValid}
use flow_pipe.Specs.Normalize.{insert_by_name, sort_by_name, normalized, normalize}
use flow_pipe.Api.Keys.{active_key, version_spec_key, flow_prefix}
use flow_pipe.Api.Flows.{
  create_flow, create_new_version, prepare_version, commit_version, next_version, unchanged,
  get_flow,
}
use flow_pipe.Api.Flows.Created.{created}
use flow_pipe.Api.Schemas.{
  schema_prefix, schema_active_key, schema_version_key, next_schema_version, schema_unchanged,
  commit_schema, create_schema_version, create_schema,
}
use flow_pipe.Api.Registry.{SchemaResponse, serve_schema}
use flow_pipe.Api.Service.{FlowRequest, FlowResponse, serve}
use flow_pipe.Api.Config.{Config}
use flow_pipe.Api.Auth.{
  api_key_unary_interceptor, first_bearer_token, handled, parse_bearer_token,
  ensure_api_key_configured,
}
use flow_pipe.Cli.{
  RootFlags, Surroundings, CliError, connect_failed, format_bearer_token, dial_api, over, call,
}
use flow_pipe.Cli.Admission.{client_key_admits}
use flow_pipe.Cli.Loader.{load_flow_spec, checked_spec}
use flow_pipe.Cli.Flows.{submit}
use flow_pipe.Cli.Submitted.{submit_stores}
use flow_pipe.Cli.Schemas.{parse_queue_schema_format, schema_create, schema_get}
use flow_pipe.Cli.Versions.{schema_get-schema_create}

abbrev backend : Backend
backend = record {
  etcd = table;
  specs = staged_codec;
  statuses = status_codec;
  schemas = schema_codec;
}

abbrev cfg : Config
cfg = record {
  grpc_addr = codes ":9090";
  http_addr = codes ":8080";
  etcd_endpoints = [];
  otlp_endpoint = [];
  service_name = codes "flow-api";
  observability_enabled = false;
  log_level = codes "info";
  auth_enabled = true;
  api_key = codes "s3cret";
  http_tls_enabled = false;
  http_tls_cert_file = [];
  http_tls_key_file = [];
  grpc_tls_enabled = false;
  grpc_tls_cert_file = [];
  grpc_tls_key_file = [];
  grpc_tls_server_name = [];
}

-- The key, as it stands behind a new line in a file.
abbrev settings : RootFlags
settings = record {
  api_key = codes "s3cret\n";
  grpc_tls_enabled = false;
  grpc_tls_cert_file = [];
  grpc_tls_server_name = [];
}

abbrev addr : Text
addr = codes "localhost:9090"

-- Every file holds "jobs"; the decoders hand it on.
abbrev here : Surroundings
here = record {
  Yaml = Text;
  read_file = λ path. some jobs;
  stdin = none;
  unmarshal_yaml = λ b. some b;
  marshal_json = λ y. some y;
  unmarshal_spec = λ b. some (staged b 0);
  run_runtime = λ path. true;
  tls_credentials = λ cert name. true;
  connects = λ a. text_eq a addr;
  link = served;
}

-- To open this opens what the client's and the server's calls compute with.
submit_jobs : Result CliError FlowResponse × World Entries
unfolding submit checked_spec load_flow_spec normalize normalized sort_by_name insert_by_name
    text_lt validate validate_queues validate_stages validate_stage call dial_api
    format_bearer_token api_key_unary_interceptor first_bearer_token parse_bearer_token serve
    create_flow create_new_version prepare_version commit_version next_version unchanged get_key
    commit ◌>>=◌ lift pure raise active_key version_spec_key flow_prefix path_join format_uint
    parse_uint find put_list marshal_staged text_eq has_prefix trim_space trim_left trim_right
    cut_all cut_any cut_prefix
submit_jobs = submit here backend cfg settings addr (codes "jobs.yaml") (quiet [])

submit_jobs_succeeds : submit_jobs.0 ≡ ok (FlowResponse.flow (created jobs 1 (staged jobs 0)))
unfolding submit_jobs
submit_jobs_succeeds = refl

abbrev second_client : Surroundings
second_client = record here { connects = λ a. false }

no_connection :
    submit second_client backend cfg settings addr (codes "jobs.yaml") (quiet [])
    ≡ (err (connect_failed addr), quiet [])
unfolding submit_jobs
no_connection = refl

client_key_admits_example :
    call here cfg settings addr (serve backend (FlowRequest.get_flow jobs)) (quiet [])
    ≡ over served (λ v. handled (serve backend (FlowRequest.get_flow jobs) v)) (quiet [])
unfolding ensure_api_key_configured dial_api format_bearer_token text_eq has_prefix trim_space
    trim_left trim_right cut_all cut_any cut_prefix
client_key_admits_example =
    client_key_admits here cfg settings addr
      (record { authorization = codes "Bearer s3cret" ∷ []; secured = false })
      (serve backend (FlowRequest.get_flow jobs)) (quiet []) refl refl refl refl refl

submit_stores_example :
    IsValid (staged jobs 0)
    × ((version : ℕ) × (FlowResponse.flow (created jobs 1 (staged jobs 0))
          ≡ FlowResponse.flow (created jobs version (normalized (staged jobs 0))))
        × (get_flow backend jobs submit_jobs.1 ≡ (
          ok (record (created jobs version (normalized (staged jobs 0))) { status = none }),
          submit_jobs.1,
        )))
unfolding submit_jobs
submit_stores_example =
    submit_stores here backend cfg settings addr (codes "jobs.yaml") (staged jobs 0) []
      (FlowResponse.flow (created jobs 1 (staged jobs 0))) _ refl jobs-IsPlain refl

abbrev orders : SchemaDefinition
orders = record {
  schema_id = codes "orders";
  version = 1;
  format = SchemaFormat.flatbuffers;
  raw_schema = jobs;
}

orders-IsPlain : IsPlain orders.schema_id
unfolding is_plain
orders-IsPlain = is_plain-IsPlain orders.schema_id refl

create_orders : Result CliError SchemaResponse × World Entries
unfolding schema_create parse_queue_schema_format call dial_api format_bearer_token
    api_key_unary_interceptor first_bearer_token parse_bearer_token serve_schema create_schema
    create_schema_version commit_schema next_schema_version schema_unchanged get_key commit ◌>>=◌
    lift pure raise schema_active_key schema_version_key schema_prefix path_join format_uint
    parse_uint find put_list marshal_schema mark text_eq has_prefix trim_space trim_left trim_right
    cut_all cut_any cut_prefix
create_orders =
    schema_create here backend cfg settings addr (codes " FlatBuffer") (codes "orders.fbs")
      (codes "orders") (quiet [])

schema_get-schema_create_example :
    schema_get here backend cfg settings addr (codes "orders") (format_uint 1) create_orders.1
    ≡ (ok (SchemaResponse.schema orders), create_orders.1)
unfolding create_orders
schema_get-schema_create_example =
    schema_get-schema_create here backend cfg settings addr (codes " FlatBuffer")
      (codes "orders.fbs") (codes "orders") [] orders _ orders-IsPlain (omega arith) refl

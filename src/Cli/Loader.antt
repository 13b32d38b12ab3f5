-- ===== src/Cli/Loader.antt =====
-- Loading a flow file: cli/internal/loader/load.go, and the check that the commands make of it.
use flow_pipe.Prelude.{Option, none, some}
use flow_pipe.Text.{Text}
use flow_pipe.Proto.{FlowSpec}
use flow_pipe.Remote.{Result, ok, err}
use flow_pipe.Specs.Validate.{validate}
use flow_pipe.Specs.Normalize.{normalize}
use flow_pipe.Cli.{
  Surroundings, CliError, read_failed, yaml_decode_failed, json_failed, spec_decode_failed, invalid,
}

module _ (M : Surroundings) where
  -- LoadFlowSpec, with yamlToJSON
  unfoldable pub load_flow_spec : Text → Result CliError FlowSpec
  load_flow_spec path = elim (M.read_file path) [
    | none ↦ err (read_failed path)
    | some data_bytes ↦ elim (M.unmarshal_yaml data_bytes) [
      | none ↦ err yaml_decode_failed
      | some raw ↦ elim (M.marshal_json raw) [
        | none ↦ err json_failed
        | some json_bytes ↦ elim (M.unmarshal_spec json_bytes) [
          | none ↦ err spec_decode_failed
          | some spec ↦ ok spec
        ]
      ]
    ]
  ]

  -- A spec that was loaded and normalized, and that Validate accepts.
  abbrev pub accepted : Option FlowSpec → Result CliError (Option FlowSpec)
  accepted spec = elim (validate spec) [ none ↦ ok spec | some e ↦ err (invalid e) ]

  -- The first steps of validate, run, submit and update.
  unfoldable pub checked_spec : Text → Result CliError (Option FlowSpec)
  unfolding load_flow_spec normalize validate
  checked_spec path = elim (load_flow_spec path) [
    | err e ↦ err e
    | ok spec ↦ accepted (normalize (some spec))
  ]

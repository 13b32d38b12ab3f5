-- ===== src/Cli/Flows.antt =====
-- The commands on flows: validate, run, submit, update, get, list, status, stop and rollback of
-- cli/cmd/flowctl. A command ends with the reply of its call, which it prints.
use flow_pipe.Prelude.{ℕ, Option, none, some, [], ◌==◌, if◌then◌else◌}
use flow_pipe.Text.{Text}
use flow_pipe.Text.FilePath.{is_empty}
use flow_pipe.Proto.{FlowSpec}
use flow_pipe.Remote.{Result, ok, err, Remote, raise, lift, ◌>>=◌}
use flow_pipe.Backend.{Backend}
use flow_pipe.Api.Config.{Config}
use flow_pipe.Api.Service.{FlowRequest, FlowResponse, serve}
use flow_pipe.Cli.{
  Surroundings, RootFlags, CliError, runtime_failed, flow_name_required, version_required, call,
}
use flow_pipe.Cli.Loader.{checked_spec}

abbrev pub spec_name : Option FlowSpec → Text
spec_name none = []
spec_name (some spec) = spec.name

-- The name that update sends: that of its flag, or else the spec's.
abbrev pub update_name : Text → Option FlowSpec → Result CliError Text
update_name given spec =
    let name = if is_empty given then spec_name spec else given in
    if is_empty name then err flow_name_required else ok name

module _ (M : Surroundings) where
  -- validateCmd
  abbrev pub validate_command : Text → Result CliError Unit
  validate_command path = elim (checked_spec M path) [ err e ↦ err e | ok spec ↦ ok tt ]

  -- runCmd
  abbrev pub run_command : Text → Result CliError Unit
  run_command path = elim (checked_spec M path) [
    | err e ↦ err e
    | ok spec ↦ if M.run_runtime path then ok tt else err runtime_failed
  ]

  module _ (B : Backend) (cfg : Config) (settings : RootFlags) (addr : Text) where
    abbrev pub Command : Type 0
    Command = Remote B.etcd.Server CliError FlowResponse

    abbrev send : FlowRequest → Command
    send r = call M cfg settings addr (serve B r)

    -- submitCmd
    unfoldable pub submit : Text → Command
    unfolding checked_spec call serve
    submit path = lift (checked_spec M path) >>= λ spec. send (FlowRequest.create_flow spec)

    -- updateCmd
    unfoldable pub update : Text → Text → Command
    unfolding checked_spec call serve
    update given path = lift (checked_spec M path) >>= λ spec.
        lift (update_name given spec) >>= λ name. send (FlowRequest.update_flow name spec)

    -- getCmd
    abbrev pub get : Text → Command
    get name = send (FlowRequest.get_flow name)

    -- statusCmd
    abbrev pub status : Text → Command
    status name = send (FlowRequest.get_flow_status name)

    -- listCmd
    abbrev pub list : Command
    list = send FlowRequest.list_flows

    -- stopCmd
    abbrev pub stop : Text → Command
    stop name = send (FlowRequest.delete_flow name)

    -- rollbackCmd
    abbrev pub rollback : ℕ → Text → Command
    rollback version name =
        if version == 0
        then raise version_required
        else send (FlowRequest.rollback_flow name version)

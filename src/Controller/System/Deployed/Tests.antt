-- ===== src/Controller/System/Deployed/Tests.antt =====
-- An update on a concrete etcd, followed to a concrete cluster.
use flow_pipe.Text.FilePath.Plain.{jobs, jobs-IsPlain}
use flow_pipe.Controller.Concrete.{rendering, config, empty_queue}
use flow_pipe.Prelude.{◌≡◌, refl, Option, none, some, [], arith}
use flow_pipe.Text.{Text, text_eq}
use flow_pipe.Text.Decimal.{format_uint, parse_uint}
use flow_pipe.Text.FilePath.{path_join}
use flow_pipe.Proto.{Flow}
use flow_pipe.Remote.{ok, quiet, ◌>>=◌}
use flow_pipe.Etcd.Table.{table, Entries, find, put_list}
use flow_pipe.Etcd.Table.Imaged.{imaged, imaged_codec, marshal_imaged}
use flow_pipe.Etcd.Table.Schemas.{schema_codec}
use flow_pipe.Backend.{Backend, get_key, commit}
use flow_pipe.Api.Keys.{active_key, version_spec_key, flow_prefix}
use flow_pipe.Api.Flows.{
  update_flow, create_new_version, prepare_version, commit_version, next_version, unchanged,
}
use flow_pipe.Controller.Shelves.{shelves, empty}
use flow_pipe.Controller.RateLimiting.Instance.{items}
use flow_pipe.Controller.Reconcile.{Found}
use flow_pipe.Controller.Reconcile.Reports.{reports, marshal_report}
use flow_pipe.Controller.System.{State, Step, Reach}
use flow_pipe.Controller.System.Progress.Steps.{written}
use flow_pipe.Controller.System.Deployed.{idle_state, Deployed, update_flow-Deployed}

abbrev backend : Backend
backend = record { etcd = table; specs = imaged_codec; statuses = reports; schemas = schema_codec }

abbrev nothing_settled : Text → Option Found
nothing_settled k = none

abbrev first : Flow
first = record { name = jobs; version = 1; spec = some (imaged jobs 1); status = none }

abbrev updated_server : Entries
updated_server = (update_flow backend jobs (some (imaged jobs 0)) (quiet [])).1.server

updated :
    update_flow backend jobs (some (imaged jobs 0)) (quiet []) ≡ (ok first, quiet updated_server)
unfolding update_flow create_new_version prepare_version commit_version next_version unchanged
    get_key commit ◌>>=◌ active_key version_spec_key flow_prefix path_join format_uint parse_uint
    find put_list marshal_imaged text_eq
updated = refl

abbrev idle : State items backend shelves
idle = idle_state items backend shelves empty_queue [] empty nothing_settled

update_flow-Deployed_example :
    (t : State items backend shelves) × Step items backend shelves rendering config idle
      (written items backend shelves jobs updated_server idle)
    × Reach items backend shelves rendering config
        (written items backend shelves jobs updated_server idle)
        t
    × Deployed items backend shelves rendering config jobs 1 (imaged jobs 1) 7 t
unfolding marshal_report text_eq
update_flow-Deployed_example =
    update_flow-Deployed items backend shelves rendering config 7 jobs (imaged jobs 0) empty_queue
      [] updated_server empty nothing_settled first _ jobs-IsPlain refl refl (λ j. refl) refl
      updated (λ e. ground arith)
      (record {
        json = jobs;
        yaml = jobs;
        named = refl;
        imaged = refl;
        to_json = refl;
        to_yaml = refl;
      })
      refl

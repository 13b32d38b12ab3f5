-- ===== src/Controller/Reconcile/Tests.antt =====
-- Reconciliations at a concrete etcd and a concrete cluster.
use flow_pipe.Text.FilePath.Plain.{jobs, jobs-IsPlain}
use flow_pipe.Controller.Concrete.{rendering, config, empty_queue}
use flow_pipe.Prelude.{◌≡◌, refl, true, false, none, some, List, [], ◌∷◌, arith}
use flow_pipe.Text.{codes, text_eq}
use flow_pipe.Text.Decimal.{format_uint, parse_uint}
use flow_pipe.Text.FilePath.{path_join}
use flow_pipe.Proto.{Flow, FlowSpec}
use flow_pipe.Remote.{Result, ok, quiet, served, ◌>>=◌}
use flow_pipe.Etcd.Table.{table, Entries, find}
use flow_pipe.Proto.{FlowState}
use flow_pipe.Backend.{Backend, get_key, put_key}
use flow_pipe.Api.Keys.{active_key, version_spec_key, flow_prefix}
use flow_pipe.Api.Flows.{get_flow_status}
use flow_pipe.Api.Flows.Consistency.{IsConsistent}
use flow_pipe.Controller.Kube.{
  deployment, daemon_set, job, cron_job, config_map, get_object, put_object, delete_object,
  pull_always,
}
use flow_pipe.Controller.Shelves.{shelves, empty, look}
use flow_pipe.Controller.Flows.{get_active_flow, list_flows, update_status}
use flow_pipe.Controller.Flows.Listing.{Listed, list_flows-finds}
use flow_pipe.Controller.RateLimiting.Instance.{items}
use flow_pipe.Controller.Seed.{enqueue_existing, enqueue_existing-waits}
use flow_pipe.Controller.Runtime.{
  runtime_name, config_name, ensure_runtime, ensure_checked, apply_config_map, apply_workload,
  apply_deployment, create_or_update, delete_runtime_resources, delete_all,
}
use flow_pipe.Controller.Reconcile.{ReconcileError, Systems, act, reconcile}
use flow_pipe.Controller.Reconcile.Reports.{reports, marshal_report}
use flow_pipe.Controller.Reconcile.Report.{get_flow_status-reconcile}
use flow_pipe.Controller.Reconcile.Frame.{reconcile-IsConsistent}
use flow_pipe.Controller.Reconcile.Removal.{reconcile-removes}
use flow_pipe.Controller.Reconcile.Installs.{reconcile-installs}
use flow_pipe.Controller.Runtime.Installed.{Installed}
use flow_pipe.Controller.Runtime.Template.{pull_policy_from_spec}
use flow_pipe.Etcd.Table.Imaged.{imaged, imaged_codec, unmarshal_imaged}
use flow_pipe.Etcd.Table.Schemas.{schema_codec}

abbrev spec : FlowSpec
spec = imaged jobs 1

abbrev backend : Backend
backend = record { etcd = table; specs = imaged_codec; statuses = reports; schemas = schema_codec }

abbrev stored : Entries
stored = (active_key jobs, format_uint 1) ∷ (version_spec_key jobs 1, 1 ∷ jobs) ∷ []

abbrev systems : Systems backend shelves
systems = record { store = quiet stored; cluster = record { server = empty; net = served ∷ [] } }

abbrev reconciled : Result ReconcileError Unit × Systems backend shelves
reconciled = reconcile backend shelves rendering config 7 jobs systems

get_active_flow-jobs :
    get_active_flow backend jobs (quiet stored) ≡ (ok (some spec, 1), quiet stored)
unfolding get_active_flow get_key ◌>>=◌ find text_eq active_key version_spec_key flow_prefix
    path_join format_uint parse_uint unmarshal_imaged
get_active_flow-jobs = refl

reconciled-ok : reconciled ≡ (ok tt, reconciled.1)
unfolding reconcile act get_active_flow get_key ◌>>=◌ find text_eq active_key version_spec_key
    flow_prefix path_join format_uint parse_uint unmarshal_imaged ensure_runtime ensure_checked
    apply_config_map apply_workload apply_deployment create_or_update get_object put_object look
    update_status put_key marshal_report
reconciled-ok = refl

get_flow_status-reconcile_example : get_flow_status backend jobs reconciled.1.store ≡ (
  ok (
      some (record {
        state = FlowState.deploying;
        message = codes "flow runtime created";
        active_version = 1;
        workload = runtime_name jobs;
        last_updated = 7;
      })),
  reconciled.1.store,
)
get_flow_status-reconcile_example =
    get_flow_status-reconcile backend shelves rendering config 7 jobs spec 1 stored systems.cluster
      reconciled.1 get_active_flow-jobs reconciled-ok

reconcile-installs_example :
    Installed shelves rendering (codes "ns") spec pull_always false [] reconciled.1.cluster.server
unfolding pull_policy_from_spec
reconcile-installs_example =
    reconcile-installs backend shelves rendering config 7 jobs spec 1 (quiet stored) (quiet stored)
      systems.cluster reconciled.1 (λ e. ground arith) get_active_flow-jobs reconciled-ok

empty-IsConsistent : IsConsistent backend []
unfolding find
empty-IsConsistent = record { stored = λ n v b pn bv h. cc; pointed = λ n a pn h. cc }

abbrev nothing : Systems backend shelves
nothing = record {
  store = quiet [];
  cluster = record { server = empty; net = served ∷ served ∷ served ∷ served ∷ served ∷ [] };
}

reconcile-IsConsistent_example :
    IsConsistent backend (reconcile backend shelves rendering config 7 jobs nothing).1.store.server
reconcile-IsConsistent_example =
    reconcile-IsConsistent backend shelves rendering config 7 jobs nothing jobs-IsPlain
      empty-IsConsistent

abbrev removed : Result ReconcileError Unit × Systems backend shelves
removed = reconcile backend shelves rendering config 7 jobs nothing

get_active_flow-none : get_active_flow backend jobs (quiet []) ≡ (ok (none, 0), quiet [])
unfolding get_active_flow get_key ◌>>=◌ find
get_active_flow-none = refl

removed-ok : removed ≡ (ok tt, removed.1)
unfolding reconcile act get_active_flow get_key ◌>>=◌ find delete_runtime_resources delete_all
    delete_object
removed-ok = refl

reconcile-removes_example :
    (shelves.find removed.1.cluster.server deployment (codes "ns") (runtime_name jobs) ≡ none)
    × (shelves.find removed.1.cluster.server daemon_set (codes "ns") (runtime_name jobs) ≡ none)
    × (shelves.find removed.1.cluster.server job (codes "ns") jobs ≡ none)
    × (shelves.find removed.1.cluster.server cron_job (codes "ns") jobs ≡ none)
    × (shelves.find removed.1.cluster.server config_map (codes "ns") (config_name jobs) ≡ none)
reconcile-removes_example =
    reconcile-removes backend shelves rendering 7 jobs config 0 (quiet []) (quiet []) served served
      served served served [] empty removed.1 refl refl get_active_flow-none removed-ok

list_flows-finds_example :
    (flows : List Flow) × (list_flows backend (quiet stored) ≡ (ok flows, quiet stored))
    × Listed jobs flows
list_flows-finds_example =
    list_flows-finds backend stored jobs spec 1 (quiet stored) jobs-IsPlain get_active_flow-jobs

enqueue_existing-waits_example :
    ((enqueue_existing items backend 1 (quiet stored) empty_queue).0 ≡ (ok tt, quiet stored))
    × (items.waits (enqueue_existing items backend 1 (quiet stored) empty_queue).1.q jobs ≡ true)
enqueue_existing-waits_example =
    enqueue_existing-waits items backend 1 stored empty_queue jobs spec 1 (quiet stored)
      jobs-IsPlain refl get_active_flow-jobs

-- ===== src/Controller/Reconcile.antt =====
-- reconcile of controller/internal/controller/reconcile.go: it reads a flow in etcd, brings Kubernetes
-- into line with it, and reports. `now` is the clock's reading.
pub mod Report
pub mod Reports
pub mod Frame
pub mod Removal
pub mod Installs
pub mod Ends
mod Tests
use flow_pipe.Prelude.{ℕ, Bool, Option, none, some}
use flow_pipe.Text.{Text, codes}
use flow_pipe.Proto.{FlowSpec, FlowStatus, FlowState}
use flow_pipe.Remote.{Result, ok, err, World}
use flow_pipe.Backend.{Backend, StoreError}
use flow_pipe.Controller.Kube.{Kube, RuntimeError}
use flow_pipe.Controller.Flows.{get_active_flow, update_status}
use flow_pipe.Controller.Runtime.{Rendering, ensure_runtime, delete_runtime_resources}
use flow_pipe.Controller.Runtime.Template.{pull_policy_from_spec}

pub data ReconcileError : Type 0 where
  store_failed : StoreError → ReconcileError
  runtime_failed : RuntimeError → ReconcileError

-- The fields of Controller that reconcile reads; `has_client` says whether there is a Kubernetes client.
pub record ControllerConfig : Type 0 where
  pub has_client : Bool
  pub runtime_namespace : Text
  pub observability_enabled : Bool
  pub otel_endpoint : Text

-- The status that reconcile reports.
abbrev pub deploying_status : ℕ → Text → ℕ → FlowStatus
deploying_status version workload now = record {
  state = FlowState.deploying;
  message = codes "flow runtime created";
  active_version = version;
  workload = workload;
  last_updated = now;
}

abbrev pub Found : Type 0
Found = Result StoreError (Option FlowSpec × ℕ)

module _ (B : Backend) (K : Kube) where
  -- etcd and Kubernetes, each behind its own network.
  pub record Systems : Type 0 where
    pub store : World B.etcd.Server
    pub cluster : World K.Cluster

  abbrev pub Ended : Type 0
  Ended = Result ReconcileError Unit × Systems

  abbrev pub from_store : Result StoreError Unit × World B.etcd.Server → World K.Cluster → Ended
  from_store (ok done, store) cluster = (ok tt, record { store = store; cluster = cluster })
  from_store (err e, store) cluster =
      (err (store_failed e), record { store = store; cluster = cluster })

  abbrev pub from_deletion :
      World B.etcd.Server → Result RuntimeError Unit × World K.Cluster → Ended
  from_deletion store (ok done, cluster) = (ok tt, record { store = store; cluster = cluster })
  from_deletion store (err e, cluster) =
      (err (runtime_failed e), record { store = store; cluster = cluster })

  module _ (R : Rendering) (config : ControllerConfig) (now : ℕ) (name : Text) where
    -- UpdateStatus, after the workload is there.
    abbrev pub report : ℕ → World B.etcd.Server → Result RuntimeError Text × World K.Cluster → Ended
    report version store (ok workload, cluster) =
        from_store (update_status B name (some (deploying_status version workload now)) store)
          cluster
    report version store (err e, cluster) =
        (err (runtime_failed e), record { store = store; cluster = cluster })

    -- reconcile behind GetActiveFlow.
    unfoldable pub act : Found → Systems → Ended
    act (err e) w = (err (store_failed e), w)
    act (ok (none, version)) w =
        from_deletion w.store
          (delete_runtime_resources K config.has_client config.runtime_namespace name w.cluster)
    act (ok (some spec, version)) w = report version w.store (
        ensure_runtime K config.has_client R config.runtime_namespace (some spec)
          (pull_policy_from_spec (some spec)) config.observability_enabled config.otel_endpoint
          w.cluster)

    -- reconcile
    unfoldable pub reconcile : Systems → Ended
    reconcile w =
        let read = get_active_flow B name w.store in act read.0 (record w { store = read.1 })

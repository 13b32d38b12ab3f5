-- ===== src/Controller/Reconcile/Installs.antt =====
-- The reconciliation of a flow that is there.
use flow_pipe.Prelude.{ℕ, ◌≡◌, ◌≢◌, refl, sym, ap, subst, some}
use flow_pipe.Text.{Text}
use flow_pipe.Proto.{FlowSpec}
use flow_pipe.Remote.{Result, ok, err, World}
use flow_pipe.Backend.{Backend, StoreError}
use flow_pipe.Controller.Kube.{Kube, job, RuntimeError}
use flow_pipe.Controller.Flows.{get_active_flow}
use flow_pipe.Controller.Runtime.{Rendering}
use flow_pipe.Controller.Runtime.Template.{pull_policy_from_spec}
use flow_pipe.Controller.Runtime.Frame.{workload_kind}
use flow_pipe.Controller.Runtime.Installed.{Installed, ensure_runtime_installs}
use flow_pipe.Controller.Reconcile.{ControllerConfig, Systems, from_store, report, act, reconcile}

module _ (B : Backend) (K : Kube) where
  from_store-cluster :
      (u : Result StoreError Unit × World B.etcd.Server) (cluster : World K.Cluster)
      (w : Systems B K)
      → from_store B K u cluster ≡ (ok tt, w)
      → w.cluster ≡ cluster
  from_store-cluster (ok done, store) cluster w e = ap (λ r. r.1.cluster) (sym e)
  from_store-cluster (err x, store) cluster w e = cc (ap (λ r. r.0) e)

  module _ (R : Rendering) (config : ControllerConfig) (now : ℕ) (name : Text) where
    report-cluster :
        (version : ℕ) (store : World B.etcd.Server)
        (made : Result RuntimeError Text × World K.Cluster) (w : Systems B K)
        → report B K R config now name version store made ≡ (ok tt, w)
        → (workload : Text) × (made.0 ≡ ok workload) × (w.cluster ≡ made.1)
    report-cluster version store (ok workload, cluster) w e =
        (workload, refl, from_store-cluster _ cluster w e)
    report-cluster version store (err x, cluster) w e = cc (ap (λ r. r.0) e)

    -- If the reconciliation of a flow succeeds whose active version has a spec in etcd that does not
    -- ask for a plain job, then, whatever befell its calls, the config map in the runtime namespace
    -- holds the YAML rendering of that spec, and the workload of the kind and name that the spec asks
    -- for is there and runs the spec's pod template, made with the checksum of that rendering.
    pub reconcile-installs :
        (spec : FlowSpec) (version : ℕ) (store store' : World B.etcd.Server)
        (cluster : World K.Cluster) (w : Systems B K)
        → workload_kind spec ≢ job
        → get_active_flow B name store ≡ (ok (some spec, version), store')
        → reconcile B K R config now name (record { store = store; cluster = cluster }) ≡ (ok tt, w)
        → Installed K R config.runtime_namespace spec
            (pull_policy_from_spec (some spec))
            config.observability_enabled
            config.otel_endpoint
            w.cluster.server
    unfolding reconcile act
    reconcile-installs spec version store store' cluster w no_job found e =
        let made = report-cluster version store' _ w (rw found at e) in
        subst
          (λ (c : World K.Cluster).
            Installed K R config.runtime_namespace spec (pull_policy_from_spec (some spec))
              config.observability_enabled config.otel_endpoint c.server)
          (sym made.2)
          (ensure_runtime_installs K config.has_client R config.runtime_namespace spec _ _ _ made.0
            cluster no_job made.1)

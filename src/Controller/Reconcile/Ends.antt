-- ===== src/Controller/Reconcile/Ends.antt =====
-- A reconciliation that has what it needs ends without an error.
use flow_pipe.Prelude.{ℕ, ◌≡◌, refl, ap, true, some}
use flow_pipe.Text.{Text}
use flow_pipe.Proto.{FlowSpec}
use flow_pipe.Remote.{ok, quiet}
use flow_pipe.Backend.{Backend}
use flow_pipe.Controller.Kube.{Kube}
use flow_pipe.Controller.Flows.Shared.{get_flow_status-update_status}
use flow_pipe.Controller.Runtime.{Rendering}
use flow_pipe.Controller.Runtime.Template.{pull_policy_from_spec}
use flow_pipe.Controller.Runtime.Frame.{workload_name}
use flow_pipe.Controller.Runtime.Named.{ensure_runtime-Returns}
use flow_pipe.Controller.Runtime.Ready.{IsReady, ensure_runtime-Succeeds}
use flow_pipe.Controller.Reconcile.{ControllerConfig, Systems, deploying_status, act}

module _ (B : Backend) (K : Kube) (R : Rendering) (config : ControllerConfig) (now : ℕ)
    (name : Text) (spec : FlowSpec) (version : ℕ) (bytes : Text) (client : config.has_client ≡ true)
    (ready : IsReady R spec)
    (encodes : B.statuses.marshal (deploying_status version (workload_name spec) now)
      ≡ some bytes) where
  pub act-ends :
      (s : B.etcd.Server) (c : K.Cluster)
      → (w : Systems B K) × (act B K R config now name
            (ok (some spec, version))
            (record { store = quiet s; cluster = quiet c })
          ≡ (ok tt, w))
  unfolding act
  act-ends s c =
      let done =
        ensure_runtime-Succeeds K R config.runtime_namespace spec ready
          (pull_policy_from_spec (some spec)) config.observability_enabled config.otel_endpoint in
      let named : done.value c ≡ workload_name spec =
        (ensure_runtime-Returns K R config.runtime_namespace spec true _ _ _).only (quiet c) _
          (ap (λ r. r.0) (done.runs c)) in
      let stored = get_flow_status-update_status B name _ s bytes encodes in
      (
        record { store = stored.0; cluster = quiet (done.server c) },
        rw (client, done.runs c, named, stored.1) refl,
      )

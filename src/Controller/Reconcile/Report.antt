-- ===== src/Controller/Reconcile/Report.antt =====
-- What a reconciliation reports, and how the API server reads it.
use flow_pipe.Prelude.{ℕ, ◌≡◌, refl, sym, ap, subst, ◌∙◌, some, Option-cases, inl, inr}
use flow_pipe.Text.{Text, codes}
use flow_pipe.Proto.{FlowState, FlowSpec, FlowStatus}
use flow_pipe.Remote.{Result, ok, err, World, quiet, ◌>>=◌, lift}
use flow_pipe.Backend.{Backend, StoreError}
use flow_pipe.Controller.Runtime.Named.{ensure_runtime-Returns}
use flow_pipe.Api.Flows.{get_flow_status}
use flow_pipe.Controller.Kube.{Kube, RuntimeError}
use flow_pipe.Controller.Flows.{get_active_flow, update_status}
use flow_pipe.Controller.Flows.Shared.{get_flow_status-update_status}
use flow_pipe.Controller.Runtime.{Rendering}
use flow_pipe.Controller.Runtime.Frame.{workload_name}
use flow_pipe.Controller.Reconcile.{
  ControllerConfig, deploying_status, Systems, from_store, report, act, reconcile,
}

module _ (B : Backend) where
  -- An UpdateStatus that succeeds is what GetFlowStatus then reads.
  stored-update_status :
      (name : Text) (status : FlowStatus) (s : B.etcd.Server) (w : World B.etcd.Server)
      → update_status B name (some status) (quiet s) ≡ (ok tt, w)
      → get_flow_status B name w ≡ (ok (some status), w)
  unfolding update_status ◌>>=◌ lift
  stored-update_status name status s w e = elim (Option-cases (B.statuses.marshal status)) [
    | inl failed ↦ cc (ap (λ r. r.0) (rw failed at e))
    | inr (bytes, encodes) ↦
        let shared = get_flow_status-update_status B name status s bytes encodes in
        subst (λ w. get_flow_status B name w ≡ (ok (some status), w))
          (ap (λ r. r.1) (sym shared.1 ∙ e)) shared.2
  ]

module _ (B : Backend) (K : Kube) where
  from_store-ok :
      (u : Result StoreError Unit × World B.etcd.Server) (cluster : World K.Cluster)
      (w : Systems B K)
      → from_store B K u cluster ≡ (ok tt, w)
      → u ≡ (ok tt, w.store)
  from_store-ok (ok done, store) cluster w e = cc (ap (λ r. r.1.store) e)
  from_store-ok (err x, store) cluster w e = cc (ap (λ r. r.0) e)

  module _ (R : Rendering) (config : ControllerConfig) (now : ℕ) (name : Text) where
    report-ok :
        (version : ℕ) (store : World B.etcd.Server)
        (made : Result RuntimeError Text × World K.Cluster) (w : Systems B K)
        → report B K R config now name version store made ≡ (ok tt, w)
        → (workload : Text) × (made.0 ≡ ok workload)
          × (update_status B name (some (deploying_status version workload now)) store
              ≡ (ok tt, w.store))
    report-ok version store (ok workload, cluster) w e =
        (workload, refl, from_store-ok _ cluster w e)
    report-ok version store (err x, cluster) w e = cc (ap (λ r. r.0) e)

    -- If a reconciliation of a flow succeeds that has a spec in etcd, with no fault between the
    -- controller and etcd and whatever befalls its calls of Kubernetes, then GetFlowStatus of the API
    -- server right after it returns the state "deploying" with the message "flow runtime
    -- created", the active version, the time of the reconciliation and the name of the workload that
    -- the spec asks for.
    pub get_flow_status-reconcile :
        (spec : FlowSpec) (version : ℕ) (s : B.etcd.Server) (cluster : World K.Cluster)
        (w : Systems B K)
        → get_active_flow B name (quiet s) ≡ (ok (some spec, version), quiet s)
        → reconcile B K R config now name (record { store = quiet s; cluster = cluster })
          ≡ (ok tt, w)
        → get_flow_status B name w.store ≡ (
          ok (
              some (record {
                state = FlowState.deploying;
                message = codes "flow runtime created";
                active_version = version;
                workload = workload_name spec;
                last_updated = now;
              })),
          w.store,
        )
    unfolding reconcile act
    get_flow_status-reconcile spec version s cluster w found e =
        let made = report-ok version (quiet s) _ w (rw found at e) in
        let named =
          (ensure_runtime-Returns K R config.runtime_namespace spec config.has_client _ _ _).only
            cluster made.0 made.1 in
        subst
          (λ workload.
            get_flow_status B name w.store
            ≡ (ok (some (deploying_status version workload now)), w.store))
          named (stored-update_status B name _ s w.store made.2)

-- ===== src/Controller/Reconcile/Removal.antt =====
-- The reconciliation of a flow that is gone.
use flow_pipe.Prelude.{ℕ, ◌≡◌, refl, sym, ap, ◌∙◌, true, false, none, List, ◌∷◌}
use flow_pipe.Text.{Text}
use flow_pipe.Text.FilePath.{is_empty}
use flow_pipe.Remote.{Result, ok, err, Outcome, World}
use flow_pipe.Backend.{Backend}
use flow_pipe.Controller.Kube.{
  Kube, Kind, config_map, deployment, daemon_set, job, cron_job, RuntimeError,
}
use flow_pipe.Controller.Flows.{get_active_flow}
use flow_pipe.Controller.Runtime.{Rendering, runtime_name, config_name}
use flow_pipe.Controller.Runtime.Deletion.Success.{delete_runtime_resources_succeeded}
use flow_pipe.Controller.Reconcile.{ControllerConfig, Systems, from_deletion, act, reconcile}

module _ (B : Backend) (K : Kube) (R : Rendering) (now : ℕ) (name : Text) where
  from_deletion-ok :
      (store : World B.etcd.Server) (d : Result RuntimeError Unit × World K.Cluster)
      (w : Systems B K)
      → from_deletion B K store d ≡ (ok tt, w)
      → (d.0 ≡ ok tt) × (w.cluster ≡ d.1)
  from_deletion-ok store (ok done, cluster) w e = (refl, ap (λ r. r.1.cluster) (sym e))
  from_deletion-ok store (err x, cluster) w e = cc (ap (λ r. r.0) e)

  -- If the reconciliation of a flow with a name succeeds that is not in etcd (or whose active version
  -- has no spec there), none of the five objects of the flow is left in the runtime namespace.
  pub reconcile-removes :
      (config : ControllerConfig) (version : ℕ) (store store' : World B.etcd.Server)
      (o1 o2 o3 o4 o5 : Outcome) (net : List Outcome) (c : K.Cluster) (w : Systems B K)
      → is_empty name ≡ false
      → config.has_client ≡ true
      → get_active_flow B name store ≡ (ok (none, version), store')
      → reconcile B K R config now name (record {
        store = store;
        cluster = record { server = c; net = o1 ∷ o2 ∷ o3 ∷ o4 ∷ o5 ∷ net };
      })
        ≡ (ok tt, w)
      → (K.find w.cluster.server deployment config.runtime_namespace (runtime_name name) ≡ none)
        × (K.find w.cluster.server daemon_set config.runtime_namespace (runtime_name name) ≡ none)
        × (K.find w.cluster.server job config.runtime_namespace name ≡ none)
        × (K.find w.cluster.server cron_job config.runtime_namespace name ≡ none)
        × (K.find w.cluster.server config_map config.runtime_namespace (config_name name) ≡ none)
  unfolding reconcile act
  reconcile-removes config version store store' o1 o2 o3 o4 o5 net c w nonempty client found e =
      let ns = config.runtime_namespace in
      let ended = from_deletion-ok store' _ w (rw (found, client) at e) in
      let gone =
        delete_runtime_resources_succeeded K ns name o1 o2 o3 o4 o5 net c nonempty ended.0 in
      let place =
        λ (k : Kind) (n : Text). ap (λ (cl : World K.Cluster). K.find cl.server k ns n) ended.1 in
      (
        place deployment (runtime_name name) ∙ gone.0,
        place daemon_set (runtime_name name) ∙ gone.1,
        place job name ∙ gone.2,
        place cron_job name ∙ gone.3,
        place config_map (config_name name) ∙ gone.4,
      )

-- ===== src/Api/Service/Consistency.antt =====
-- The service keeps the flows in etcd consistent.
use flow_pipe.Prelude.{◌<◌, Option, none, some, List, [], ◌∷◌, All}
use flow_pipe.Text.{Text}
use flow_pipe.Text.Decimal.{u64_limit}
use flow_pipe.Text.FilePath.Laws.{IsPlain}
use flow_pipe.Proto.{FlowSpec}
use flow_pipe.Remote.{World}
use flow_pipe.Remote.Laws.{
  Keeps, Keeps-request, keeps_rules, Keeps-bind, Keeps-pure, Keeps-if, Keeps-attempt,
}
use flow_pipe.Backend.{Backend, get_keys}
use flow_pipe.Api.Keys.{root_prefix}
use flow_pipe.Api.Flows
use flow_pipe.Api.Flows.{list_active, listed_name}
use flow_pipe.Api.Flows.Consistency.{IsConsistent}
use flow_pipe.Api.Flows.Consistency.Methods.{
  create_flow-IsConsistent, update_flow-IsConsistent, delete_flow-IsConsistent,
}
use flow_pipe.Api.Flows.Consistency.Rollback.{
  get_key-Keeps, get_flow-Keeps, rollback_flow-IsConsistent,
}
use flow_pipe.Api.Service.{
  FlowRequest, create_flow, update_flow, get_flow, list_flows, delete_flow, get_flow_status,
  rollback_flow, serve, serve_all,
}

abbrev HasPlainName : Option FlowSpec → Type 0
HasPlainName none = Unit
HasPlainName (some spec) = IsPlain spec.name

-- The names of flows that the request writes are plain path segments, and its version is a uint64.
abbrev pub IsPlainRequest : FlowRequest → Type 0
IsPlainRequest (create_flow spec) = HasPlainName spec
IsPlainRequest (update_flow name spec) = IsPlain name
IsPlainRequest (delete_flow name) = IsPlain name
IsPlainRequest (rollback_flow name v) = IsPlain name × (v < u64_limit)
IsPlainRequest (get_flow name) = Unit
IsPlainRequest list_flows = Unit
IsPlainRequest (get_flow_status name) = Unit

module _ (B : Backend) where
  list_active-Keeps :
      {P : B.etcd.Server → Type 0} (seen : List Text) (kvs : List (Text × Text))
      → Keeps P (list_active B seen kvs)
  unfolding list_active
  list_active-Keeps {P} seen [] = search keeps_rules
  list_active-Keeps {P} seen ((key, value) ∷ kvs) =
      Keeps-if _ _ _
        (Keeps-if _ _ _ (list_active-Keeps {P = P} seen kvs) (
          Keeps-bind _ _ (Keeps-attempt _ (get_flow-Keeps B (listed_name key))) (λ found.
            Keeps-bind _ _ (list_active-Keeps {P = P} (listed_name key ∷ seen) kvs)
              (λ flows. Keeps-pure _))))
        (list_active-Keeps {P = P} seen kvs)

  create-IsConsistent :
      (spec : Option FlowSpec)
      → HasPlainName spec
      → Keeps (IsConsistent B) (Flows.create_flow B spec)
  create-IsConsistent none h = unfold Flows.create_flow in search keeps_rules
  create-IsConsistent (some spec) h = create_flow-IsConsistent B spec h

  serve-IsConsistent : (r : FlowRequest) → IsPlainRequest r → Keeps (IsConsistent B) (serve B r)
  unfolding serve Flows.list_flows Flows.get_flow_status get_keys
  serve-IsConsistent (create_flow spec) h =
      Keeps-bind _ _ (create-IsConsistent spec h) (λ f. Keeps-pure _)
  serve-IsConsistent (update_flow name spec) h =
      Keeps-bind _ _ (update_flow-IsConsistent B name spec h) (λ f. Keeps-pure _)
  serve-IsConsistent (get_flow name) h = Keeps-bind _ _ (get_flow-Keeps B name) (λ f. Keeps-pure _)
  serve-IsConsistent list_flows h =
      Keeps-bind _ _
        (Keeps-bind (get_keys B root_prefix) _ (Keeps-request _ _ (λ s c. c))
          (list_active-Keeps []))
        (λ f. Keeps-pure _)
  serve-IsConsistent (delete_flow name) h =
      Keeps-bind _ _ (delete_flow-IsConsistent B name h) (λ f. Keeps-pure _)
  serve-IsConsistent (get_flow_status name) h = search (keeps_rules, get_key-Keeps B) depth 10
  serve-IsConsistent (rollback_flow name v) h =
      Keeps-bind _ _ (rollback_flow-IsConsistent B name v h.0 h.1) (λ f. Keeps-pure _)

  -- From a state in which the flows are consistent (every stored version decodes to a spec with that
  -- name and version, and every active version is a uint64 that is stored), any session of requests
  -- that write only plain flow names and uint64 versions leaves them consistent, whichever of the
  -- calls to etcd fail before or after they take effect.
  pub serve_all-IsConsistent :
      (rs : List FlowRequest) (w : World B.etcd.Server)
      → All IsPlainRequest rs
      → IsConsistent B w.server
      → IsConsistent B (serve_all B rs w).server
  unfolding serve_all
  serve_all-IsConsistent [] w h c = c
  serve_all-IsConsistent (r ∷ rs) w h c =
      serve_all-IsConsistent rs (serve B r w).1 h.1 ((serve-IsConsistent r h.0).after w c)

-- ===== src/Api/Service.antt =====
-- The flow service: FlowServer of api/internal/service/flow_service.go, whose methods hand the
-- request to the store. Its debug logging is left out.
pub mod Consistency
pub mod Catalog
use flow_pipe.Prelude.{ℕ, Option, List, [], ◌∷◌, map}
use flow_pipe.Text.{Text}
use flow_pipe.Proto.{FlowSpec, FlowStatus, Flow}
use flow_pipe.Remote.{World, pure, ◌>>=◌}
use flow_pipe.Backend.{Backend, Store}
use flow_pipe.Api.Flows

pub data FlowRequest : Type 0 where
  create_flow : Option FlowSpec → FlowRequest
  update_flow : Text → Option FlowSpec → FlowRequest
  get_flow : Text → FlowRequest
  list_flows : FlowRequest
  delete_flow : Text → FlowRequest
  get_flow_status : Text → FlowRequest
  rollback_flow : Text → ℕ → FlowRequest

pub record FlowSummary : Type 0 where
  pub name : Text
  pub status : Option FlowStatus

pub data FlowResponse : Type 0 where
  flow : Flow → FlowResponse
  summaries : List FlowSummary → FlowResponse
  empty : FlowResponse
  status_of : Option FlowStatus → FlowResponse

unfoldable pub summary : Flow → FlowSummary
summary f = record { name = f.name; status = f.status }

module _ (B : Backend) where
  unfoldable pub serve : FlowRequest → Store B FlowResponse
  serve (create_flow spec) = do f ← Flows.create_flow B spec; pure (flow f)
  serve (update_flow name spec) = do f ← Flows.update_flow B name spec; pure (flow f)
  serve (get_flow name) = do f ← Flows.get_flow B name; pure (flow f)
  serve list_flows = do fs ← Flows.list_flows B; pure (summaries (map summary fs))
  serve (delete_flow name) = Flows.delete_flow B name >>= λ _. pure empty
  serve (get_flow_status name) = do s ← Flows.get_flow_status B name; pure (status_of s)
  serve (rollback_flow name version) = do f ← Flows.rollback_flow B name version; pure (flow f)

  -- The requests of a session, one after another; one that fails leaves what it wrote before.
  unfoldable pub serve_all : List FlowRequest → World B.etcd.Server → World B.etcd.Server
  serve_all [] w = w
  serve_all (r ∷ rs) w = serve_all rs (serve r w).1

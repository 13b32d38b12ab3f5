-- ===== src/Controller/Flows/Shared.antt =====
-- What the API server and the controller say to each other through etcd.
use flow_pipe.Prelude.{ℕ, ◌≡◌, refl, some, arith}
use flow_pipe.Text.{Text, text_eq_refl}
use flow_pipe.Text.Decimal.{format_uint, parse_uint, parse_uint-format_uint}
use flow_pipe.Text.FilePath.Laws.{IsPlain}
use flow_pipe.Proto.{FlowSpec, FlowStatus, Flow}
use flow_pipe.Remote.{ok, World, quiet, ◌>>=◌}
use flow_pipe.Backend.{Backend, get_key, put_key}
use flow_pipe.Api.Keys.{active_key, version_spec_key, status_key}
use flow_pipe.Api.Flows.{update_flow, get_flow_status}
use flow_pipe.Api.Flows.Write.{next_version-bound}
use flow_pipe.Api.Flows.Created.{create_new_version-Wrote, active-Wrote, version-Wrote, Wrote}
use flow_pipe.Controller.Flows.{get_active_flow, update_status}

module _ (B : Backend) where
  get_active_flow-stored :
      (name : Text) (s : B.etcd.Server) (a : Text) (v : ℕ) (bytes : Text) (spec : FlowSpec)
      → B.etcd.get s (active_key name) ≡ some a
      → parse_uint a ≡ some v
      → B.etcd.get s (version_spec_key name v) ≡ some bytes
      → B.specs.unmarshal bytes ≡ some spec
      → get_active_flow B name (quiet s) ≡ (ok (some spec, v), quiet s)
  unfolding ◌>>=◌ get_active_flow get_key
  get_active_flow-stored name s a v bytes spec ha hp hb hu = rw (ha, hp, hb) (ground arith)

  get_active_flow-Wrote :
      {name : Text} (plain : IsPlain name) {spec : FlowSpec} {s : B.etcd.Server} {f : Flow}
      {w : World B.etcd.Server}
      → Wrote B name spec s f w
      → get_active_flow B name w ≡ (ok (f.spec, f.version), w)
  get_active_flow-Wrote {name} plain {spec} {s} {f} {w} c =
      let bound = next_version-bound (B.etcd.get s (active_key name)) c.next c.is_next in
      rw (c.net, c.result)
        (get_active_flow-stored name w.server (format_uint c.next) c.next c.bytes
          (record spec { version = c.next }) (active-Wrote B c)
          (parse_uint-format_uint c.next bound) (version-Wrote B plain c)
          (B.specs.unmarshal-marshal _ c.bytes c.encodes))

  -- If UpdateFlow of the API server succeeds on a plain flow name with no network fault,
  -- GetActiveFlow of the controller right after it returns the spec and the version of the flow
  -- that UpdateFlow returned, and changes nothing.
  pub get_active_flow-update_flow :
      (name : Text) (spec : FlowSpec) (s : B.etcd.Server) (f : Flow) (w : World B.etcd.Server)
      → IsPlain name
      → update_flow B name (some spec) (quiet s) ≡ (ok f, w)
      → get_active_flow B name w ≡ (ok (f.spec, f.version), w)
  unfolding update_flow
  get_active_flow-update_flow name spec s f w plain e =
      get_active_flow-Wrote plain
        (create_new_version-Wrote B name (record spec { name = name }) s e)

  -- If the controller's UpdateStatus of a status that encodes is called with no network fault, it
  -- succeeds, and GetFlowStatus of the API server right after it returns that status.
  pub get_flow_status-update_status :
      (name : Text) (status : FlowStatus) (s : B.etcd.Server) (bytes : Text)
      → B.statuses.marshal status ≡ some bytes
      → (w : World B.etcd.Server) × (update_status B name (some status) (quiet s) ≡ (ok tt, w))
        × (get_flow_status B name w ≡ (ok (some status), w))
  unfolding ◌>>=◌ update_status get_flow_status get_key put_key
  get_flow_status-update_status name status s bytes h = (
    quiet (B.etcd.put (status_key name) bytes s),
    rw h refl,
    rw (
      B.etcd.get-put (status_key name) bytes s (status_key name),
      text_eq_refl (status_key name),
      B.statuses.unmarshal-marshal status bytes h,
    ),
  )

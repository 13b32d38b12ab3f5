-- ===== src/Api/Flows/Read.antt =====
-- What GetFlow returns, from what the keys hold.
use flow_pipe.Prelude.{ℕ, ◌≡◌, Option, none, some, arith}
use flow_pipe.Text.{Text}
use flow_pipe.Text.Decimal.{parse_uint}
use flow_pipe.Proto.{FlowSpec, FlowStatus}
use flow_pipe.Remote.{ok, err, quiet, ◌>>=◌}
use flow_pipe.Backend.{Backend, flow_not_found, get_key}
use flow_pipe.Api.Keys.{active_key, version_spec_key, status_key}
use flow_pipe.Api.Flows.{get_flow_status, get_flow}

module _ (B : Backend) where
  abbrev pub decode_stored : Option Text → Option FlowStatus
  decode_stored none = none
  decode_stored (some bytes) = B.statuses.unmarshal bytes

  -- The status that a client is shown: none if it is absent or does not decode.
  abbrev pub stored_status : B.etcd.Server → Text → Option FlowStatus
  stored_status s name = decode_stored (B.etcd.get s (status_key name))

  pub get_flow-stored :
      (name : Text) (s : B.etcd.Server) (a : Text) (v : ℕ) (bytes : Text) (spec : FlowSpec)
      → B.etcd.get s (active_key name) ≡ some a
      → parse_uint a ≡ some v
      → B.etcd.get s (version_spec_key name v) ≡ some bytes
      → B.specs.unmarshal bytes ≡ some spec
      → get_flow B name (quiet s) ≡ (
        ok (record { name = name; version = v; spec = some spec; status = stored_status s name }),
        quiet s,
      )
  unfolding ◌>>=◌ get_flow get_flow_status get_key
  get_flow-stored name s a v bytes spec ha hp hb hu = rw (ha, hp, hb, hu) (ground arith)

  pub get_flow-missing :
      (name : Text) (s : B.etcd.Server)
      → B.etcd.get s (active_key name) ≡ none
      → get_flow B name (quiet s) ≡ (err (flow_not_found name), quiet s)
  unfolding ◌>>=◌ get_flow get_key
  get_flow-missing name s h = rw h

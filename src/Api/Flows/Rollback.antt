-- ===== src/Api/Flows/Rollback.antt =====
-- RollbackFlow: it points the active version at a stored one, and the next update builds on it.
use flow_pipe.Prelude.{ℕ, ◌+◌, ◌<◌, ◌≡◌, ap, ◌∙◌, none, some, arith}
use flow_pipe.Text.{Text, text_eq_refl}
use flow_pipe.Text.Decimal.{format_uint, u64_limit, parse_uint-format_uint}
use flow_pipe.Text.FilePath.Laws.{IsPlain}
use flow_pipe.Proto.{FlowSpec}
use flow_pipe.Remote.{ok, err, quiet, ◌>>=◌}
use flow_pipe.Backend.{Backend, version_missing, get_key, put_key}
use flow_pipe.Api.Keys.{active_key, version_spec_key, status_key}
use flow_pipe.Api.Keys.Distinct.{active-eq-version, active-eq-status}
use flow_pipe.Api.Flows.{get_flow, get_flow_status, rollback_flow, update_flow, next_version}
use flow_pipe.Api.Flows.Created.{update_flow_succeeds}
use flow_pipe.Api.Flows.Read.{decode_stored, stored_status, get_flow-stored}

next_version-format : (v : ℕ) → v + 1 < u64_limit → next_version (some (format_uint v)) ≡ ok (v + 1)
unfolding next_version
next_version-format v h = ground (arith, parse_uint-format_uint v)

module _ (B : Backend) where
  -- GetFlow changes nothing.
  pub get_flow-quiet : (name : Text) (s : B.etcd.Server) → (get_flow B name (quiet s)).1 ≡ quiet s
  unfolding ◌>>=◌ get_flow get_flow_status get_key
  get_flow-quiet name s = ground arith

  pub rollback_flow-quiet :
      (name : Text) (v : ℕ) (s : B.etcd.Server) (bytes : Text)
      → B.etcd.get s (version_spec_key name v) ≡ some bytes
      → rollback_flow B name v (quiet s)
        ≡ get_flow B name (quiet (B.etcd.put (active_key name) (format_uint v) s))
  unfolding ◌>>=◌ rollback_flow get_key put_key
  rollback_flow-quiet name v s bytes h = rw h

  -- RollbackFlow of a plain flow name to a stored uint64 version, served without a fault, returns
  -- that version with the spec that was stored for it, and the status that was stored.
  rollback_flow_restores :
      (name : Text) (v : ℕ) (s : B.etcd.Server) (bytes : Text) (spec : FlowSpec)
      → IsPlain name
      → v < u64_limit
      → B.etcd.get s (version_spec_key name v) ≡ some bytes
      → B.specs.unmarshal bytes ≡ some spec
      → (rollback_flow B name v (quiet s)).0
        ≡ ok
            (record { name = name; version = v; spec = some spec; status = stored_status B s name })
  rollback_flow_restores name v s bytes spec plain bound h hu =
      let after = B.etcd.put (active_key name) (format_uint v) s in
      let put = B.etcd.get-put (active_key name) (format_uint v) s in
      ap (λ x. x.0)
        (rollback_flow-quiet name v s bytes h
          ∙ get_flow-stored B name after (format_uint v) v bytes spec
              (put (active_key name) ∙ rw (text_eq_refl (active_key name)))
              (parse_uint-format_uint v bound)
              (put (version_spec_key name v) ∙ rw (active-eq-version plain plain v) h) hu)
      ∙ ap (λ st. ok (record { name = name; version = v; spec = some spec; status = st }))
          (ap (decode_stored B) (put (status_key name) ∙ rw (active-eq-status plain plain)))

  -- RollbackFlow to a version that is not stored fails with "version does not exist" and changes
  -- nothing, on a network without faults.
  pub rollback_flow_missing :
      (name : Text) (v : ℕ) (s : B.etcd.Server)
      → B.etcd.get s (version_spec_key name v) ≡ none
      → rollback_flow B name v (quiet s) ≡ (err (version_missing v), quiet s)
  unfolding ◌>>=◌ rollback_flow get_key
  rollback_flow_missing name v s h = rw h

  -- After RollbackFlow of a plain flow name to a stored version `v`, an UpdateFlow with a spec that
  -- encodes stores that spec as version `v + 1`, whatever version `v + 1` held before; no network
  -- fault, and no overflow of the uint64 version.
  pub update_after_rollback_overwrites :
      (name : Text) (v : ℕ) (s : B.etcd.Server) (old new : Text) (spec : FlowSpec)
      → IsPlain name
      → v + 1 < u64_limit
      → B.etcd.get s (version_spec_key name v) ≡ some old
      → B.specs.marshal (record spec { name = name; version = v + 1 }) ≡ some new
      → let w = (rollback_flow B name v (quiet s)).1 in
        B.etcd.get (update_flow B name (some spec) w).1.server (version_spec_key name (v + 1))
        ≡ some new
  update_after_rollback_overwrites name v s old new spec plain bound h encodes =
      let after = B.etcd.put (active_key name) (format_uint v) s in
      let rolled : (rollback_flow B name v (quiet s)).1 ≡ quiet after =
        ap (λ x. x.1) (rollback_flow-quiet name v s old h) ∙ get_flow-quiet name after in
      let is_next : next_version (B.etcd.get after (active_key name)) ≡ ok (v + 1) =
        ap next_version (
          B.etcd.get-put (active_key name) (format_uint v) s (active_key name)
          ∙ rw (text_eq_refl (active_key name)))
        ∙ next_version-format v bound in
      let written = update_flow_succeeds B name spec after (v + 1) new plain is_next encodes in
      ap
        (λ u.
          B.etcd.get (update_flow B name (some spec) u).1.server (version_spec_key name (v + 1)))
        rolled
      ∙ ap (λ x. B.etcd.get x.1.server (version_spec_key name (v + 1))) written.1
      ∙ written.2

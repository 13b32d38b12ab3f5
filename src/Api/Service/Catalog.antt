-- ===== src/Api/Service/Catalog.antt =====
-- What the flow service promises, without keys, encodings and transactions: a catalogue of flows, and
-- each request of api/internal/service/flow_service.go as a change of it. ListFlows is left out.
pub mod Represents
pub mod Writes
pub mod Refinement
mod Tests
use flow_pipe.Prelude.{ℕ, ◌+◌, ◌%◌, Bool, Option, none, some, List, [], ◌∷◌, ◌==◌, if◌then◌else◌}
use flow_pipe.Text.{Text, text_eq, has_prefix}
use flow_pipe.Text.Decimal.{u64_limit}
use flow_pipe.Text.FilePath.{is_empty}
use flow_pipe.Proto.{FlowSpec, FlowStatus, Flow}
use flow_pipe.Remote.{Result, ok, err}
use flow_pipe.Backend.{
  StoreError, name_required, spec_is_nil, marshal_failed, flow_not_found, spec_missing,
  version_missing,
}
use flow_pipe.Api.Service.{FlowRequest, FlowResponse, flow, empty, status_of, summaries}

-- One flow: the active version, the spec of each version, the status.
pub record Entry : Type 0 where
  pub active : Option ℕ
  pub spec_of : ℕ → Option FlowSpec
  pub status : Option FlowStatus

abbrev pub Catalog : Type 0
Catalog = Text → Entry

abbrev pub no_entry : Entry
no_entry = record { active = none; spec_of = λ v. none; status = none }

abbrev pub set_entry : Text → Entry → Catalog → Catalog
set_entry name e c m = if text_eq name m then e else c m

-- The number of a new version: 1 for the first, and one past the active one as a uint64.
abbrev pub next_number : Option ℕ → ℕ
next_number none = 1
next_number (some v) = (v + 1) % u64_limit

abbrev pub set_spec : ℕ → FlowSpec → (ℕ → Option FlowSpec) → ℕ → Option FlowSpec
set_spec v spec spec_of u = if v == u then some spec else spec_of u

-- What a request for the version `v` shows.
abbrev pub shown_spec : Text → ℕ → Option FlowStatus → Option FlowSpec → Result StoreError Flow
shown_spec name v status none = err (spec_missing name v)
shown_spec name v status (some spec) =
    ok (record { name = name; version = v; spec = some spec; status = status })

abbrev pub shown : Text → Entry → Option ℕ → Result StoreError Flow
shown name e none = err (flow_not_found name)
shown name e (some v) = shown_spec name v e.status (e.spec_of v)

abbrev pub look_up : Text → Catalog → Result StoreError Flow
look_up name c = shown name (c name) (c name).active

abbrev pub roll_back : Text → ℕ → Catalog → Option FlowSpec → Result StoreError Flow × Catalog
roll_back name v c none = (err (version_missing v), c)
roll_back name v c (some spec) =
    let after = set_entry name (record (c name) { active = some v }) c in
    (look_up name after, after)

abbrev pub answer :
    {A : Type 0}
    → (A → FlowResponse)
    → Result StoreError A × Catalog
    → Result StoreError FlowResponse × Catalog
answer f (ok a, c) = (ok (f a), c)
answer f (err e, c) = (err e, c)

-- `encodes` says of a spec whether it has an encoding.
module _ (encodes : FlowSpec → Bool) where
  abbrev pub add_version : Text → FlowSpec → ℕ → Catalog → Result StoreError Flow × Catalog
  add_version name spec v c =
      let stamped : FlowSpec = record spec { version = v } in
      if encodes stamped
      then (
        ok (record { name = name; version = v; spec = some stamped; status = none }),
        set_entry name
            (record (c name) { active = some v; spec_of = set_spec v stamped (c name).spec_of }) c,
      )
      else (err marshal_failed, c)

  -- The answer to a request, and the catalogue behind it.
  unfoldable pub fulfil : FlowRequest → Catalog → Result StoreError FlowResponse × Catalog
  fulfil (FlowRequest.create_flow none) c = (err name_required, c)
  fulfil (FlowRequest.create_flow (some spec)) c =
      if is_empty spec.name
      then (err name_required, c)
      else answer flow (add_version spec.name spec (next_number (c spec.name).active) c)
  fulfil (FlowRequest.update_flow name none) c = (err spec_is_nil, c)
  fulfil (FlowRequest.update_flow name (some spec)) c =
      answer flow (add_version name (record spec { name = name }) (next_number (c name).active) c)
  fulfil (FlowRequest.get_flow name) c = answer flow (look_up name c, c)
  fulfil FlowRequest.list_flows c = (ok (summaries []), c)
  fulfil (FlowRequest.delete_flow name) c =
      (ok empty, λ m. if has_prefix name m then no_entry else c m)
  fulfil (FlowRequest.get_flow_status name) c = (ok (status_of (c name).status), c)
  fulfil (FlowRequest.rollback_flow name v) c =
      answer flow (roll_back name v c ((c name).spec_of v))

  -- The answers to a session, one after another.
  unfoldable pub fulfil_all : List FlowRequest → Catalog → List (Result StoreError FlowResponse)
  fulfil_all [] c = []
  fulfil_all (r ∷ rs) c = (fulfil r c).0 ∷ fulfil_all rs (fulfil r c).1

-- ===== src/Api/Flows.antt =====
-- The flows in etcd: EtcdStore of api/internal/store/etcd.go, one definition for each method.
-- A method's spec argument is a value here; the source also writes the name and the version into the
-- caller's message.
pub mod Read
pub mod Write
pub mod Created
pub mod Exclusion
pub mod Delete
pub mod Rollback
pub mod Consistency
use flow_pipe.Prelude.{
  ℕ, ◌+◌, ◌%◌, Bool, true, false, ◌||◌, Option, none, some, List, [], ◌∷◌, ◌++◌, if◌then◌else◌,
}
use flow_pipe.Text.{Text, codes, text_eq, has_suffix, trim_prefix, trim_suffix}
use flow_pipe.Text.Decimal.{format_uint, parse_uint, u64_limit}
use flow_pipe.Text.Names.{contains}
use flow_pipe.Text.FilePath.{is_empty}
use flow_pipe.Proto.{FlowSpec, FlowStatus, Flow}
use flow_pipe.Remote.{Result, ok, err, Remote, pure, raise, lift, or_else, attempt, ◌>>=◌}
use flow_pipe.Etcd.{Compare, is_absent, has_value}
use flow_pipe.Backend.{
  Backend, Store, StoreError, name_required, spec_is_nil, invalid_active_version, marshal_failed,
  unmarshal_failed, modified_concurrently, flow_not_found, spec_missing, version_missing, get_key,
  get_keys, put_key, delete_keys, commit,
}
use flow_pipe.Api.Keys.{root_prefix, flow_prefix, active_key, version_spec_key, status_key}

-- nextVersion: 1 for a new flow, otherwise one past the active version, as a uint64.
unfoldable pub next_version : Option Text → Result StoreError ℕ
next_version none = ok 1
next_version (some active) = elim (parse_uint active) [
  | none ↦ err invalid_active_version
  | some prev ↦ ok ((prev + 1) % u64_limit)
]

-- The transaction's comparison: the active version is still what was read.
unfoldable pub unchanged : Text → Option Text → Compare
unchanged name none = is_absent (active_key name)
unchanged name (some active) = has_value (active_key name) active

-- A version that is ready to be written.
pub record Prepared : Type 0 where
  pub compare : Compare
  pub puts : List (Text × Text)
  pub spec : FlowSpec

-- The name that ListFlows reads off an active key.
unfoldable pub listed_name : Text → Text
listed_name key = trim_suffix (codes "/active") (trim_prefix (root_prefix ++ codes "/") key)

abbrev join : Option (Option FlowStatus) → Option FlowStatus
join none = none
join (some status) = status

module _ (B : Backend) where
  -- createNewVersion between the read and the transaction.
  unfoldable pub prepare_version : Text → FlowSpec → Option Text → Result StoreError Prepared
  prepare_version name spec active = elim (next_version active) [
    | err e ↦ err e
    | ok next ↦
        let stamped : FlowSpec = record spec { version = next } in
        elim (B.specs.marshal stamped) [
          | none ↦ err marshal_failed
          | some bytes ↦ ok (record {
            compare = unchanged name active;
            puts = (version_spec_key name next, bytes) ∷ (active_key name, format_uint next) ∷ [];
            spec = stamped;
          })
        ]
  ]

  -- The transaction of createNewVersion.
  unfoldable pub commit_version : Text → Prepared → Store B Flow
  commit_version name p = do
    succeeded ← commit B p.compare p.puts
    if succeeded
        then pure
            (record { name = name; version = p.spec.version; spec = some p.spec; status = none })
        else raise (modified_concurrently name)

  -- createNewVersion
  unfoldable pub create_new_version : Text → FlowSpec → Store B Flow
  create_new_version name spec = do
    active ← get_key B (active_key name)
    prepared ← lift (prepare_version name spec active)
    commit_version name prepared

  -- CreateFlow
  unfoldable pub create_flow : Option FlowSpec → Store B Flow
  create_flow none = raise name_required
  create_flow (some spec) =
      if is_empty spec.name then raise name_required else create_new_version spec.name spec

  -- UpdateFlow
  unfoldable pub update_flow : Text → Option FlowSpec → Store B Flow
  update_flow name none = raise spec_is_nil
  update_flow name (some spec) = create_new_version name (record spec { name = name })

  abbrev read_status : Option (Option Text) → Result StoreError (Option FlowStatus)
  read_status none = ok none
  read_status (some none) = ok none
  read_status (some (some bytes)) = elim (B.statuses.unmarshal bytes) [
    | none ↦ err unmarshal_failed
    | some status ↦ ok (some status)
  ]

  -- GetFlowStatus: a failed read counts as no status.
  unfoldable pub get_flow_status : Text → Store B (Option FlowStatus)
  get_flow_status name = do found ← attempt (get_key B (status_key name)); lift (read_status found)

  -- GetFlow
  unfoldable pub get_flow : Text → Store B Flow
  get_flow name = do
    found ← get_key B (active_key name)
    active ← lift (or_else found (flow_not_found name))
    version ← lift (or_else (parse_uint active) invalid_active_version)
    stored ← get_key B (version_spec_key name version)
    bytes ← lift (or_else stored (spec_missing name version))
    spec ← lift (or_else (B.specs.unmarshal bytes) unmarshal_failed)
    status ← attempt (get_flow_status name)
    pure (record { name = name; version = version; spec = some spec; status = join status })

  abbrev add_found : Option Flow → List Flow → List Flow
  add_found none flows = flows
  add_found (some f) flows = f ∷ flows

  -- The loop of ListFlows over the keys, with the names seen so far.
  unfoldable pub list_active : List Text → List (Text × Text) → Store B (List Flow)
  list_active seen [] = pure []
  list_active seen ((key, value) ∷ kvs) =
      let name : Text = listed_name key in
      let skip : Store B (List Flow) = list_active seen kvs in
      let visit : Store B (List Flow) = attempt (get_flow name) >>= λ found.
      list_active (name ∷ seen) kvs >>= λ flows. pure (add_found found flows) in
      if has_suffix (codes "/active") key
      then (if contains seen name then skip else visit)
      else skip

  -- ListFlows
  unfoldable pub list_flows : Store B (List Flow)
  list_flows = do kvs ← get_keys B root_prefix; list_active [] kvs

  -- DeleteFlow
  unfoldable pub delete_flow : Text → Store B Unit
  delete_flow name = delete_keys B (flow_prefix name)

  -- RollbackFlow
  unfoldable pub rollback_flow : Text → ℕ → Store B Flow
  rollback_flow name version = get_key B (version_spec_key name version) >>= λ stored.
      lift (or_else stored (version_missing version)) >>= λ _.
      put_key B (active_key name) (format_uint version) >>= λ _. get_flow name

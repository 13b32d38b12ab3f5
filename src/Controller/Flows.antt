-- ===== src/Controller/Flows.antt =====
-- The flows as the controller sees them in etcd: EtcdStore of controller/internal/store/etcd.go. Its
-- key functions are those of the API server's store, word for word, and are not repeated.
pub mod Shared
pub mod Watch
pub mod Listing
mod Tests
use flow_pipe.Prelude.{ℕ, Bool, true, false, Option, none, some, List, [], ◌∷◌, ◌++◌, if◌then◌else◌}
use flow_pipe.Text.{Text, codes, text_eq, has_suffix}
use flow_pipe.Text.Decimal.{parse_uint}
use flow_pipe.Text.FilePath.{path_base, path_dir}
use flow_pipe.Proto.{FlowSpec, FlowStatus, Flow}
use flow_pipe.Remote.{Result, ok, err, pure, raise, lift, or_else, attempt, ◌>>=◌}
use flow_pipe.Backend.{
  Backend, Store, StoreError, status_is_nil, invalid_active_version, marshal_failed,
  unmarshal_failed, spec_missing, get_key, get_keys, put_key,
}
use flow_pipe.Api.Keys.{root_prefix, active_key, version_spec_key, status_key}

-- The name that buildWatchEvent and ListFlows read off an active key.
unfoldable pub watched_name : Text → Text
watched_name key = path_base (path_dir key)

pub data WatchEventType : Type 0 where
  watch_added watch_updated watch_deleted : WatchEventType

pub record WatchEvent : Type 0 where
  pub type : WatchEventType
  pub flow : Flow

-- An event of etcd's watch: a put, which may create its key, or a deletion, or a type unknown here.
pub data EtcdEventType : Type 0 where
  event_put : Bool → EtcdEventType
  event_delete event_unknown : EtcdEventType

pub record EtcdEvent : Type 0 where
  pub type : EtcdEventType
  pub key : Text

abbrev pub bare_flow : Text → Option FlowSpec → Flow
bare_flow name spec = record { name = name; version = 0; spec = spec; status = none }

abbrev pub Active : Type 0
Active = Option FlowSpec × ℕ

-- flows[name] = flow, in a map by name.
unfoldable pub put_flow : Text → Flow → List Flow → List Flow
put_flow name flow [] = flow ∷ []
put_flow name flow (f ∷ flows) =
    let rest = put_flow name flow flows in if text_eq f.name name then flow ∷ flows else f ∷ rest

abbrev pub put_found : Text → Option FlowSpec → List Flow → List Flow
put_found name none flows = flows
put_found name (some spec) flows = put_flow name (bare_flow name (some spec)) flows

module _ (B : Backend) where
  abbrev pub decode_spec : ℕ → Option Text → Result StoreError Active
  decode_spec version none = ok (none, version)
  decode_spec version (some bytes) = elim (B.specs.unmarshal bytes) [
    | none ↦ err unmarshal_failed
    | some spec ↦ ok (some spec, version)
  ]

  abbrev pub follow_active : Text → Option Text → Store B Active
  follow_active name none = pure (none, 0)
  follow_active name (some active) = do
    version ← lift (or_else (parse_uint active) invalid_active_version)
    stored ← get_key B (version_spec_key name version)
    lift (decode_spec version stored)

  -- GetActiveFlow
  unfoldable pub get_active_flow : Text → Store B Active
  get_active_flow name = do found ← get_key B (active_key name); follow_active name found

  -- UpdateStatus
  unfoldable pub update_status : Text → Option FlowStatus → Store B Unit
  update_status name none = raise status_is_nil
  update_status name (some status) = do
    bytes ← lift (or_else (B.statuses.marshal status) marshal_failed)
    put_key B (status_key name) bytes

  abbrev event_type : EtcdEventType → Option WatchEventType
  event_type (event_put true) = some watch_added
  event_type (event_put false) = some watch_updated
  event_type event_delete = some watch_deleted
  event_type event_unknown = none

  abbrev pub report : WatchEventType → Text → Option Active → Option WatchEvent
  report type name none = none
  report type name (some found) = some (record { type = type; flow = bare_flow name found.0 })

  abbrev fetch_event :
      (Text → Store B Active) → Text → Option WatchEventType → Store B (Option WatchEvent)
  fetch_event fetch name none = pure none
  fetch_event fetch name (some watch_deleted) =
      pure (some (record { type = watch_deleted; flow = bare_flow name none }))
  fetch_event fetch name (some type) =
      attempt (fetch name) >>= λ found. pure (report type name found)

  -- buildWatchEvent; `none` is an event that is passed over.
  unfoldable pub build_watch_event :
      (Text → Store B Active) → Option EtcdEvent → Store B (Option WatchEvent)
  build_watch_event fetch none = pure none
  build_watch_event fetch (some ev) =
      if has_suffix (codes "/active") ev.key
      then fetch_event fetch (watched_name ev.key) (event_type ev.type)
      else pure none

  -- The spec that an active key's value leads to; any failure passes the key over.
  unfoldable pub fetch_listed : Text → Text → Store B FlowSpec
  fetch_listed name value = do
    version ← lift (or_else (parse_uint value) invalid_active_version)
    stored ← get_key B (version_spec_key name version)
    bytes ← lift (or_else stored (spec_missing name version))
    lift (or_else (B.specs.unmarshal bytes) unmarshal_failed)

  -- The loop of ListFlows, with the map of the flows found so far.
  unfoldable pub list_loop : List Flow → List (Text × Text) → Store B (List Flow)
  list_loop flows [] = pure flows
  list_loop flows ((key, value) ∷ kvs) =
      let name : Text = watched_name key in
      let skip : Store B (List Flow) = list_loop flows kvs in
      let visit : Store B (List Flow) =
        attempt (fetch_listed name value) >>= λ found. list_loop (put_found name found flows) kvs in
      if has_suffix (codes "/active") key then visit else skip

  -- ListFlows; the order of its result stands for nothing.
  unfoldable pub list_flows : Store B (List Flow)
  list_flows = do kvs ← get_keys B (root_prefix ++ codes "/"); list_loop [] kvs

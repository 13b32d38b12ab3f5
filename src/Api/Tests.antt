-- ===== src/Api/Tests.antt =====
-- Runs of the API server's store and service on the concrete table, and the theorems at them.
use flow_pipe.Text.FilePath.Plain.{jobs, jobs-IsPlain}
use flow_pipe.Prelude.{ℕ, ◌≡◌, refl, none, some, List, [], ◌∷◌, arith}
use flow_pipe.Text.{Text, codes, text_eq, has_prefix}
use flow_pipe.Text.FilePath.{path_join}
use flow_pipe.Text.FilePath.Laws.{IsPlain, is_plain, is_plain-IsPlain}
use flow_pipe.Text.Decimal.{format_uint, parse_uint}
use flow_pipe.Proto.{Flow, named}
use flow_pipe.Remote.{Result, served, refused, lost, ok, err, World, quiet, ◌>>=◌}
use flow_pipe.Etcd.Table.{table, Entries, find, put_list, without}
use flow_pipe.Etcd.Table.Codecs.{
  spec_codec, status_codec, marshal_spec, unmarshal_spec, unmarshal_status,
}
use flow_pipe.Backend.{
  Backend, Store, StoreError, get_key, commit, put_key, delete_keys, modified_concurrently,
}
use flow_pipe.Api.Keys.{active_key, version_spec_key, status_key, flow_prefix}
use flow_pipe.Api.Flows.{
  create_flow, update_flow, create_new_version, prepare_version, commit_version, next_version,
  unchanged, get_flow, get_flow_status, delete_flow, rollback_flow, Prepared,
}
use flow_pipe.Api.Flows.Created.{get_flow-update_flow}
use flow_pipe.Api.Flows.Exclusion.{commit_version_excludes}
use flow_pipe.Api.Flows.Delete.{delete_flow_exact}
use flow_pipe.Api.Flows.Rollback.{update_after_rollback_overwrites}
use flow_pipe.Api.Flows.Consistency.{IsConsistent}
use flow_pipe.Api.Service.{FlowRequest, serve_all}
use flow_pipe.Api.Service.Consistency.{serve_all-IsConsistent}
use flow_pipe.Etcd.Table.Schemas.{schema_codec}

abbrev backend : Backend
backend = record {
  etcd = table;
  specs = spec_codec;
  statuses = status_codec;
  schemas = schema_codec;
}

-- A call on a network without faults. To open it opens what the calls compute with.
run : {A : Type 0} → Store backend A → Entries → Result StoreError A × World Entries
unfolding create_flow update_flow create_new_version prepare_version commit_version next_version
    unchanged get_flow get_flow_status delete_flow rollback_flow get_key put_key delete_keys commit
    ◌>>=◌ active_key version_spec_key status_key flow_prefix path_join format_uint parse_uint find
    put_list without marshal_spec unmarshal_spec unmarshal_status text_eq has_prefix
run m s = m (quiet s)

abbrev jobs_daily : Text
jobs_daily = codes "jobs-daily"

jobs_daily-IsPlain : IsPlain jobs_daily
unfolding is_plain
jobs_daily-IsPlain = is_plain-IsPlain jobs_daily refl

abbrev active : Text → ℕ → Text × Text
active name v = (active_key name, format_uint v)

abbrev version : Text → ℕ → Text × Text
version name v = (version_spec_key name v, v ∷ name)

-- Two versions of "jobs", the second active, and one of "jobs-daily".
abbrev stored : Entries
stored =
    active jobs 2
    ∷ (version_spec_key jobs 2, 2 ∷ codes "old")
    ∷ version jobs 1
    ∷ active jobs_daily 1
    ∷ version jobs_daily 1
    ∷ []

abbrev jobs_at : ℕ → Flow
jobs_at v = record {
  name = jobs;
  version = v;
  spec = some (record (named jobs) { version = v });
  status = none;
}

get_flow-update_flow_example :
    get_flow backend jobs (update_flow backend jobs (some (named jobs)) (quiet stored)).1
    ≡ (ok (jobs_at 3), (update_flow backend jobs (some (named jobs)) (quiet stored)).1)
unfolding run
get_flow-update_flow_example =
    get_flow-update_flow backend jobs (named jobs) stored (jobs_at 3) _ jobs-IsPlain refl

-- The third version of "jobs", as a writer prepares it that read the second.
abbrev third : Prepared
third = record {
  compare = unchanged jobs (some (format_uint 2));
  puts = version jobs 3 ∷ active jobs 3 ∷ [];
  spec = record (named jobs) { version = 3 };
}

commit_version_excludes_example :
    ((commit_version backend jobs third (commit_version backend jobs third (quiet stored)).1).0
      ≡ err (modified_concurrently jobs))
    × ((j : Text)
        → find
            (commit_version backend jobs third
              (commit_version backend jobs third (quiet stored)).1).1.server
            j
          ≡ find (commit_version backend jobs third (quiet stored)).1.server j)
unfolding run
commit_version_excludes_example =
    commit_version_excludes backend jobs (named jobs) (named jobs) stored third third (jobs_at 3) _
      refl refl refl

delete_flow_exact_example :
    find (delete_flow backend jobs (quiet stored)).1.server (active_key jobs_daily) ≡ none
unfolding run
delete_flow_exact_example =
    (delete_flow_exact backend jobs jobs_daily stored jobs-IsPlain jobs_daily-IsPlain).0

-- Version 2 held a spec, and holds another after a rollback to version 1 and an update.
update_after_rollback_overwrites_example :
    find
      (update_flow backend jobs
        (some (named jobs))
        (rollback_flow backend jobs 1 (quiet stored)).1).1.server
      (version_spec_key jobs 2)
    ≡ some (2 ∷ jobs)
unfolding run
update_after_rollback_overwrites_example =
    update_after_rollback_overwrites backend jobs 1 stored (1 ∷ jobs) (2 ∷ jobs) (named jobs)
      jobs-IsPlain (omega arith) refl refl

empty-IsConsistent : IsConsistent backend []
unfolding find
empty-IsConsistent = record { stored = λ n v b pn bv h. cc; pointed = λ n a pn h. cc }

-- The reply to the second update is lost.
abbrev faulty : World Entries
faulty = record { server = []; net = served ∷ served ∷ served ∷ lost ∷ refused ∷ [] }

abbrev session : List FlowRequest
session =
    FlowRequest.create_flow (some (named jobs))
    ∷ FlowRequest.update_flow jobs (some (named jobs))
    ∷ FlowRequest.get_flow jobs
    ∷ FlowRequest.rollback_flow jobs 1
    ∷ FlowRequest.delete_flow jobs
    ∷ []

serve_all-IsConsistent_example : IsConsistent backend (serve_all backend session faulty).server
serve_all-IsConsistent_example =
    serve_all-IsConsistent backend session faulty
      (jobs-IsPlain, (jobs-IsPlain, (tt, ((jobs-IsPlain, omega arith), (jobs-IsPlain, tt)))))
      empty-IsConsistent

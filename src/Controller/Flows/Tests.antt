-- ===== src/Controller/Flows/Tests.antt =====
-- The API server and the controller on one concrete etcd.
use flow_pipe.Text.FilePath.Plain.{jobs, jobs-IsPlain}
use flow_pipe.Prelude.{◌≡◌, refl, true, none, some, []}
use flow_pipe.Text.{text_eq}
use flow_pipe.Text.Decimal.{format_uint, parse_uint}
use flow_pipe.Text.FilePath.{path_join}
use flow_pipe.Proto.{Flow, named}
use flow_pipe.Remote.{ok, World, quiet, ◌>>=◌}
use flow_pipe.Etcd.Table.{table, Entries, find, put_list}
use flow_pipe.Etcd.Table.Codecs.{spec_codec, status_codec, marshal_spec}
use flow_pipe.Backend.{Backend, get_key, commit}
use flow_pipe.Api.Keys.{active_key, version_spec_key, flow_prefix}
use flow_pipe.Api.Flows.{
  update_flow, create_new_version, prepare_version, commit_version, next_version, unchanged,
}
use flow_pipe.Controller.Flows.{
  get_active_flow, build_watch_event, event_put, watch_added, bare_flow,
}
use flow_pipe.Controller.Flows.Shared.{get_active_flow-update_flow}
use flow_pipe.Controller.Flows.Watch.{build_watch_event-update_flow}
use flow_pipe.Etcd.Table.Schemas.{schema_codec}

abbrev backend : Backend
backend = record {
  etcd = table;
  specs = spec_codec;
  statuses = status_codec;
  schemas = schema_codec;
}

abbrev first : Flow
first = record {
  name = jobs;
  version = 1;
  spec = some (record (named jobs) { version = 1 });
  status = none;
}

abbrev written : World Entries
written = (update_flow backend jobs (some (named jobs)) (quiet [])).1

update-first : update_flow backend jobs (some (named jobs)) (quiet []) ≡ (ok first, written)
unfolding update_flow create_new_version prepare_version commit_version next_version unchanged
    get_key commit ◌>>=◌ active_key version_spec_key flow_prefix path_join format_uint parse_uint
    find put_list marshal_spec text_eq
update-first = refl

get_active_flow-update_flow_example :
    get_active_flow backend jobs written ≡ (ok (first.spec, 1), written)
get_active_flow-update_flow_example =
    get_active_flow-update_flow backend jobs (named jobs) [] first written jobs-IsPlain update-first

build_watch_event-update_flow_example :
    build_watch_event backend
      (get_active_flow backend)
      (some (record { type = event_put true; key = active_key jobs }))
      written
    ≡ (ok (some (record { type = watch_added; flow = bare_flow jobs first.spec })), written)
build_watch_event-update_flow_example =
    build_watch_event-update_flow backend jobs (named jobs) [] first written true jobs-IsPlain
      update-first

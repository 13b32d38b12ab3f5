-- ===== src/Api/Service/Catalog/Tests.antt =====
-- A session on the concrete table, and what the catalogue answers.
use flow_pipe.Text.FilePath.Plain.{jobs, jobs-IsPlain}
use flow_pipe.Prelude.{ℕ, ◌≡◌, refl, none, some, List, [], ◌∷◌, All, arith}
use flow_pipe.Text.{text_eq, has_prefix}
use flow_pipe.Proto.{Flow, named}
use flow_pipe.Remote.{ok, err, quiet}
use flow_pipe.Etcd.Table.{table, find}
use flow_pipe.Etcd.Table.Codecs.{spec_codec, status_codec, marshal_spec}
use flow_pipe.Etcd.Table.Schemas.{schema_codec}
use flow_pipe.Backend.{Backend, flow_not_found, version_missing}
use flow_pipe.Api.Service.{FlowRequest, flow, empty}
use flow_pipe.Api.Service.Catalog.{Catalog, no_entry, fulfil, fulfil_all}
use flow_pipe.Api.Service.Catalog.Represents.{Represents}
use flow_pipe.Api.Service.Catalog.Refinement.{
  encodes, IsCatalogued, answers, service_refines_catalog,
}

abbrev backend : Backend
backend = record {
  etcd = table;
  specs = spec_codec;
  statuses = status_codec;
  schemas = schema_codec;
}

abbrev nothing : Catalog
nothing n = no_entry

nothing-Represents : Represents backend [] nothing
unfolding find
nothing-Represents = record {
  active_is = λ n pn. tt;
  bounded = λ n v pn e. cc;
  spec_is = λ n v pn bv. tt;
  status_is = λ n pn. tt;
}

-- Two versions; back to the first, to one that is not there; deleted.
abbrev session : List FlowRequest
session =
    FlowRequest.update_flow jobs (some (named jobs))
    ∷ FlowRequest.update_flow jobs (some (named jobs))
    ∷ FlowRequest.rollback_flow jobs 1
    ∷ FlowRequest.rollback_flow jobs 7
    ∷ FlowRequest.delete_flow jobs
    ∷ FlowRequest.get_flow jobs
    ∷ []

session-IsCatalogued : All IsCatalogued session
session-IsCatalogued = (
  jobs-IsPlain,
  (
    jobs-IsPlain,
    (
      (jobs-IsPlain, omega arith),
      ((jobs-IsPlain, omega arith), (jobs-IsPlain, (jobs-IsPlain, tt))),
    ),
  ),
)

abbrev jobs_at : ℕ → Flow
jobs_at v = record {
  name = jobs;
  version = v;
  spec = some (record (named jobs) { version = v });
  status = none;
}

session_answers :
    fulfil_all (encodes backend) session nothing
    ≡ ok (flow (jobs_at 1))
      ∷ ok (flow (jobs_at 2))
      ∷ ok (flow (jobs_at 1))
      ∷ err (version_missing 7)
      ∷ ok empty
      ∷ err (flow_not_found jobs)
      ∷ []
unfolding fulfil_all fulfil text_eq has_prefix marshal_spec
session_answers = refl

service_refines_catalog_example :
    answers backend session (quiet []) ≡ fulfil_all (encodes backend) session nothing
service_refines_catalog_example =
    service_refines_catalog backend session [] nothing session-IsCatalogued nothing-Represents

-- ===== src/Etcd/Table/Staged.antt =====
-- A concrete encoding of the specs that have a name, a version and one stage, always the same. Any
-- other spec fails to encode.
use flow_pipe.Prelude.{
  ℕ, ◌≡◌, Bool, true, false, ◌&&◌, ◌==◌, Option, none, some, List, [], ◌∷◌, arith, if◌then◌else◌,
}
use flow_pipe.Text.{Text, codes, text_eq, text_eq→eq}
use flow_pipe.Proto.{FlowSpec, StageSpec, named}
use flow_pipe.Etcd.{Codec}
use flow_pipe.Etcd.Table.Codecs.{is_nil, is_none}

abbrev pub job_stage : StageSpec
job_stage = record {
  name = codes "s";
  type = codes "noop";
  threads = 1;
  input_queue = none;
  output_queue = none;
}

abbrev pub staged : Text → ℕ → FlowSpec
staged n v = record (named n) { version = v; stages = job_stage ∷ [] }

abbrev is_job : StageSpec → Bool
is_job st =
    text_eq st.name (codes "s")
    && text_eq st.type (codes "noop")
    && st.threads == 1
    && is_none st.input_queue
    && is_none st.output_queue

abbrev is_job_list : List StageSpec → Bool
is_job_list [] = false
is_job_list (st ∷ sts) = is_job st && is_nil sts

abbrev is_staged : FlowSpec → Bool
is_staged s =
    is_none s.execution
    && is_job_list s.stages
    && is_nil s.queues
    && is_nil s.labels
    && is_none s.kubernetes
    && is_none s.kubernetes_options
    && is_nil s.env

unfoldable pub marshal_staged : FlowSpec → Option Text
marshal_staged s = if is_staged s then some (s.version ∷ s.name) else none

unfoldable pub unmarshal_staged : Text → Option FlowSpec
unmarshal_staged [] = none
unmarshal_staged (v ∷ n) = some (staged n v)

is_job-eq : (st : StageSpec) → is_job st ≡ true → st ≡ job_stage
is_job-eq st h = ground (arith, text_eq→eq st.name (codes "s"), text_eq→eq st.type (codes "noop"))

is_job_list-eq : (sts : List StageSpec) → is_job_list sts ≡ true → sts ≡ job_stage ∷ []
is_job_list-eq [] h = ground arith
is_job_list-eq (st ∷ sts) h = ground (arith, is_job-eq st)

pub unmarshal-marshal_staged :
    (s : FlowSpec) (b : Text) → marshal_staged s ≡ some b → unmarshal_staged b ≡ some s
unfolding marshal_staged unmarshal_staged
unmarshal-marshal_staged s b h = ground (arith, is_job_list-eq s.stages)

abbrev pub staged_codec : Codec FlowSpec
staged_codec = record {
  marshal = marshal_staged;
  unmarshal = unmarshal_staged;
  unmarshal-marshal = unmarshal-marshal_staged;
}

-- ===== src/Controller/Runtime.antt =====
-- The runtime of a flow in Kubernetes: controller/internal/controller/runtime.go. The four workloads
-- and the config map are created or updated, and deleted, by calls that may each fail.
pub mod Template
pub mod Frame
pub mod Identity
pub mod Named
pub mod Env
pub mod Deletion
pub mod Stands
pub mod Ready
pub mod Installed
use flow_pipe.Prelude.{Bool, true, false, Option, none, some, List, [], ◌∷◌, ◌++◌, if◌then◌else◌}
use flow_pipe.Text.{Text, codes}
use flow_pipe.Text.FilePath.{is_empty}
use flow_pipe.Dict.{Dict}
use flow_pipe.Proto.{
  FlowSpec, KubernetesSettings, KubernetesOptions, KubernetesCronOptions, Resources, ExecutionMode,
  Execution, StreamingWorkloadKind, CronConcurrencyPolicy,
}
use flow_pipe.Remote.{Result, ok, err, pure, raise, lift, or_else, attempt, ◌>>=◌}
use flow_pipe.Controller.Kube.{
  Kube, Calls, Kind, config_map, deployment, daemon_set, job, cron_job, Body, Object, PullPolicy,
  ConcurrencyPolicy, JobSpec, CronJobSpec, RuntimeError, client_required, spec_required,
  name_required, image_required, marshal_failed, yaml_failed, joined, get_object, put_object,
  delete_object,
}
use Template.{
  flow_label_key, runtime_config_key, Settings, runtime_pod_template, restart_policy_from_spec,
  cron_concurrency_policy_from_spec,
}

-- protojson and yaml, which render the spec, and the hexadecimal SHA-256 of the rendering.
pub record Rendering : Type 0 where
  pub to_json : FlowSpec → Option Text
  pub json_to_yaml : Text → Option Text
  pub checksum : Text → Text

abbrev pub runtime_name : Text → Text
runtime_name flow = flow ++ codes "-runtime"

abbrev pub config_name : Text → Text
config_name flow = flow ++ codes "-config"

abbrev pub image_of : Option KubernetesSettings → Text
image_of none = []
image_of (some k) = elim k.image [ none ↦ [] | some i ↦ i ]

abbrev pub resources_of : Option KubernetesSettings → Option Resources
resources_of none = none
resources_of (some k) = k.resources

abbrev pub mode_of : Option Execution → ExecutionMode
mode_of none = ExecutionMode.streaming
mode_of (some e) = e.mode

-- The cron options that make a job a cron job: those with a schedule.
abbrev pub scheduled : Option KubernetesOptions → Option KubernetesCronOptions
scheduled none = none
scheduled (some o) = elim o.cron [
  | none ↦ none
  | some c ↦ if is_empty c.schedule then none else some c
]

abbrev pub wants_daemon_set : Option KubernetesOptions → Bool
wants_daemon_set none = false
wants_daemon_set (some o) = elim o.streaming_workload_kind [
  | StreamingWorkloadKind.daemonset ↦ true
  | _ ↦ false
]

abbrev concurrency_of : CronConcurrencyPolicy → Option ConcurrencyPolicy
concurrency_of CronConcurrencyPolicy.unspecified = none
concurrency_of p = some (cron_concurrency_policy_from_spec p)

abbrev flow_labels : Text → Dict
flow_labels flow = (flow_label_key, flow) ∷ []

-- An object as the controller first builds it.
abbrev pub desired : {A : Type 0} → Text → Text → Text → A → Object A
desired ns name flow body = record {
  name = name;
  namespace = ns;
  labels = flow_labels flow;
  body = body;
  rest = [];
}

-- The job of applyJob.
unfoldable pub job_object : FlowSpec → Settings → Text → Object JobSpec
job_object spec s ns =
    desired ns spec.name spec.name
      (record { template = runtime_pod_template s (some (restart_policy_from_spec (some spec))) })

module _ (K : Kube) where
  abbrev pub write : (k : Kind) → Object (Body k) → Option (Object (Body k)) → Calls K Unit
  write k o none = put_object K k o
  write k o (some current) = put_object K k (record current { labels = o.labels; body = o.body })

  -- Create the object, or update its spec and labels: the end of applyConfigMap, applyDeployment,
  -- applyDaemonSet and applyCronJob.
  unfoldable pub create_or_update : (k : Kind) → Object (Body k) → Calls K Unit
  create_or_update k o = do current ← get_object K k o.namespace o.name; write k o current

  abbrev pub create_if_none : Object JobSpec → Option (Object JobSpec) → Calls K Unit
  create_if_none o none = put_object K job o
  create_if_none o (some current) = pure tt

  -- applyDeployment
  unfoldable pub apply_deployment : Text → Text → Settings → Calls K Text
  apply_deployment ns name s =
      create_or_update deployment (
        desired ns name s.flow_name (record {
          replicas = 1;
          selector = flow_labels s.flow_name;
          template = runtime_pod_template s none;
        }))
      >>= λ _. pure name

  -- applyDaemonSet
  unfoldable pub apply_daemon_set : Text → Text → Settings → Calls K Text
  apply_daemon_set ns name s =
      create_or_update daemon_set (
        desired ns name s.flow_name
          (record { selector = flow_labels s.flow_name; template = runtime_pod_template s none }))
      >>= λ _. pure name

  -- applyJob: a job that is there stays as it is.
  unfoldable pub apply_job : Text → FlowSpec → Settings → Calls K Text
  apply_job ns spec s = do
    current ← get_object K job ns spec.name
    create_if_none (job_object spec s ns) current >>= λ _. pure spec.name

  -- applyCronJob
  unfoldable pub apply_cron_job : Text → FlowSpec → Settings → KubernetesCronOptions → Calls K Text
  apply_cron_job ns spec s cron =
      create_or_update cron_job (
        desired ns spec.name spec.name (record {
          schedule = cron.schedule;
          time_zone = cron.time_zone;
          suspend = cron.suspend;
          starting_deadline_seconds = cron.starting_deadline_seconds;
          successful_jobs_history_limit = cron.successful_jobs_history_limit;
          failed_jobs_history_limit = cron.failed_jobs_history_limit;
          concurrency_policy = concurrency_of cron.concurrency_policy;
          job_template = record {
            template = runtime_pod_template s (some (restart_policy_from_spec (some spec)));
          };
        }))
      >>= λ _. pure spec.name

  -- applyConfigMap, with the rendering of the spec; the result is the checksum of what is stored.
  unfoldable pub apply_config_map : Rendering → Text → Text → FlowSpec → Calls K Text
  apply_config_map R ns name spec = do
    json ← lift (or_else (R.to_json spec) marshal_failed)
    yaml ← lift (or_else (R.json_to_yaml json) yaml_failed)
    create_or_update config_map (desired ns name spec.name ((runtime_config_key, yaml) ∷ []))
        >>= λ _. pure (R.checksum yaml)

  -- The choice of the workload in ensureRuntime.
  unfoldable pub apply_workload : Text → FlowSpec → Settings → ExecutionMode → Calls K Text
  apply_workload ns spec s ExecutionMode.job = elim (scheduled spec.kubernetes_options) [
    | some cron ↦ apply_cron_job ns spec s cron
    | none ↦ apply_job ns spec s
  ]
  apply_workload ns spec s ExecutionMode.streaming =
      if wants_daemon_set spec.kubernetes_options
      then apply_daemon_set ns (runtime_name spec.name) s
      else apply_deployment ns (runtime_name spec.name) s
  apply_workload ns spec s ExecutionMode.unspecified =
      apply_deployment ns (runtime_name spec.name) s

  -- ensureRuntime behind its checks.
  unfoldable pub ensure_checked :
      Rendering → Text → FlowSpec → PullPolicy → Bool → Text → Calls K Text
  ensure_checked R ns spec policy enabled endpoint = do
    checksum ← apply_config_map R ns (config_name spec.name) spec
    apply_workload ns spec
        (record {
          flow_name = spec.name;
          config_map_name = config_name spec.name;
          image = image_of spec.kubernetes;
          image_pull_policy = policy;
          config_checksum = checksum;
          observability_enabled = enabled;
          otel_endpoint = endpoint;
          resources = resources_of spec.kubernetes;
          options = spec.kubernetes_options;
          env = spec.env;
        })
        (mode_of spec.execution)

  -- ensureRuntime; `client` says whether there is a Kubernetes client.
  unfoldable pub ensure_runtime :
      Bool → Rendering → Text → Option FlowSpec → PullPolicy → Bool → Text → Calls K Text
  ensure_runtime false R ns spec policy enabled endpoint = raise client_required
  ensure_runtime true R ns none policy enabled endpoint = raise spec_required
  ensure_runtime true R ns (some spec) policy enabled endpoint =
      if is_empty spec.name
      then raise name_required
      else if is_empty (image_of spec.kubernetes)
      then raise (image_required spec.name)
      else ensure_checked R ns spec policy enabled endpoint

  abbrev pub note_failure : Kind → Option (Unit {0}) → List Kind → List Kind
  note_failure k none failed = k ∷ failed
  note_failure k (some done) failed = failed

  abbrev pub join_failures : List Kind → Result RuntimeError Unit
  join_failures [] = ok tt
  join_failures (k ∷ ks) = err (joined (k ∷ ks))

  -- deleteRuntimeResources behind its checks: each of the five is tried, whatever became of the others.
  unfoldable pub delete_all : Text → Text → Calls K Unit
  delete_all ns flow = do
    d ← attempt (delete_object K deployment ns (runtime_name flow))
    s ← attempt (delete_object K daemon_set ns (runtime_name flow))
    j ← attempt (delete_object K job ns flow)
    c ← attempt (delete_object K cron_job ns flow)
    m ← attempt (delete_object K config_map ns (config_name flow))
    lift (
        join_failures (
          note_failure deployment d (
            note_failure daemon_set s
              (note_failure job j (note_failure cron_job c (note_failure config_map m []))))))

  -- deleteRuntimeResources
  unfoldable pub delete_runtime_resources : Bool → Text → Text → Calls K Unit
  delete_runtime_resources false ns flow = raise client_required
  delete_runtime_resources true ns flow =
      if is_empty flow then raise name_required else delete_all ns flow

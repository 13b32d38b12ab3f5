-- ===== src/Proto.antt =====
-- The messages of proto/flowpipe/v1/flow.proto that the Go code reads or writes, as the structs that
-- protoc-gen-go makes of them: an optional field or a pointer to a message is an `Option`, a map an
-- association list. `observability` and a stage's `config`, which no Go code looks into, are not
-- listed; nor are a stage's `plugin` and `realtime_priority` and a queue's `schema` and `type`.
use flow_pipe.Prelude.{ℕ, Bool, Option, none, List, []}
use flow_pipe.Text.{Text}

pub data ExecutionMode : Type 0 where
  unspecified streaming job : ExecutionMode

pub record Execution : Type 0 where
  pub mode : ExecutionMode

pub record StageSpec : Type 0 where
  pub name : Text
  pub type : Text
  pub threads : ℕ
  pub input_queue : Option Text
  pub output_queue : Option Text

pub record QueueSpec : Type 0 where
  pub name : Text
  pub capacity : ℕ

pub record Resources : Type 0 where
  pub cpu_cores : Option ℕ
  pub memory_mb : Option ℕ
  pub profile : Option Text

pub data ImagePullPolicy : Type 0 where
  unspecified always if_not_present never : ImagePullPolicy

pub data RestartPolicy : Type 0 where
  unspecified always on_failure never : RestartPolicy

pub record KubernetesSettings : Type 0 where
  pub image : Option Text
  pub image_pull_policy : ImagePullPolicy
  pub restart_policy : RestartPolicy
  pub resources : Option Resources

pub data StreamingWorkloadKind : Type 0 where
  unspecified deployment daemonset : StreamingWorkloadKind

pub data CronConcurrencyPolicy : Type 0 where
  unspecified allow forbid replace : CronConcurrencyPolicy

-- `starting_deadline_seconds` and the two limits are signed in the source and only passed on.
pub record KubernetesCronOptions : Type 0 where
  pub schedule : Text
  pub time_zone : Option Text
  pub suspend : Option Bool
  pub starting_deadline_seconds : Option ℕ
  pub concurrency_policy : CronConcurrencyPolicy
  pub successful_jobs_history_limit : Option ℕ
  pub failed_jobs_history_limit : Option ℕ

pub record KubernetesOptions : Type 0 where
  pub pod_labels : List (Text × Text)
  pub pod_annotations : List (Text × Text)
  pub service_account_name : Option Text
  pub image_pull_secrets : List Text
  pub runtime_class_name : Option Text
  pub streaming_workload_kind : StreamingWorkloadKind
  pub cron : Option KubernetesCronOptions

pub record FlowSpec : Type 0 where
  pub name : Text
  pub version : ℕ
  pub execution : Option Execution
  pub stages : List StageSpec
  pub queues : List QueueSpec
  pub labels : List (Text × Text)
  pub kubernetes : Option KubernetesSettings
  pub kubernetes_options : Option KubernetesOptions
  pub env : List (Text × Text)

pub data SchemaFormat : Type 0 where
  unspecified arrow protobuf flatbuffers json : SchemaFormat

-- SchemaDefinition of proto/flowpipe/v1/service.proto; the struct of api/internal/model/schema.go has
-- the same fields.
pub record SchemaDefinition : Type 0 where
  pub schema_id : Text
  pub version : ℕ
  pub format : SchemaFormat
  pub raw_schema : Text

pub data FlowState : Type 0 where
  unspecified pending deploying running succeeded failed stopped : FlowState

pub record FlowStatus : Type 0 where
  pub state : FlowState
  pub message : Text
  pub active_version : ℕ
  pub workload : Text
  pub last_updated : ℕ

pub record Flow : Type 0 where
  pub name : Text
  pub version : ℕ
  pub spec : Option FlowSpec
  pub status : Option FlowStatus

-- The spec whose fields all have their zero value but the name.
abbrev pub named : Text → FlowSpec
named n = record {
  name = n;
  version = 0;
  execution = none;
  stages = [];
  queues = [];
  labels = [];
  kubernetes = none;
  kubernetes_options = none;
  env = [];
}

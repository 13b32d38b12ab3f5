-- ===== src/Controller/Runtime/Template.antt =====
-- The pod template of a flow's runtime: the pure part of controller/internal/controller/runtime.go.
-- A range over a Go map goes by the list's order here; the result does not depend on it.
use flow_pipe.Prelude.{
  ℕ, ◌*◌, ◌%◌, ◌^◌, Bool, true, false, ◌||◌, Option, none, some, List, [], ◌∷◌, ◌++◌, map, ltb,
  if◌then◌else◌,
}
use flow_pipe.Text.{Text, codes, text_eq}
use flow_pipe.Text.Order.{sort}
use flow_pipe.Text.FilePath.{is_empty}
use flow_pipe.Dict.{Dict, insert, insert_all_but, lookup}
use flow_pipe.Proto.{
  FlowSpec, KubernetesOptions, Resources, ImagePullPolicy, RestartPolicy, CronConcurrencyPolicy,
}
use flow_pipe.Controller.Kube.{
  PullPolicy, pull_always, pull_never, pull_if_not_present, RestartRule, restart_always,
  restart_on_failure, restart_never, ConcurrencyPolicy, allow_concurrent, forbid_concurrent,
  replace_concurrent, EnvVar, Container, PodTemplate,
}

abbrev pub flow_label_key : Text
flow_label_key = codes "flowpipe.io/flow-name"

abbrev pub runtime_config_key : Text
runtime_config_key = codes "flow.yaml"

abbrev pub runtime_config_mount_dir : Text
runtime_config_mount_dir = codes "/config"

abbrev pub runtime_config_path : Text
runtime_config_path = codes "/config/flow.yaml"

abbrev pub runtime_config_hash_key : Text
runtime_config_hash_key = codes "flowpipe.io/flow-config-checksum"

abbrev pub resource_profile_key : Text
resource_profile_key = codes "flowpipe.io/resource-profile"

abbrev pull_policy : ImagePullPolicy → PullPolicy
pull_policy ImagePullPolicy.always = pull_always
pull_policy ImagePullPolicy.never = pull_never
pull_policy p = pull_if_not_present

-- pullPolicyFromSpec
unfoldable pub pull_policy_from_spec : Option FlowSpec → PullPolicy
pull_policy_from_spec none = pull_if_not_present
pull_policy_from_spec (some spec) = elim spec.kubernetes [
  | none ↦ pull_if_not_present
  | some k ↦ pull_policy k.image_pull_policy
]

abbrev restart_rule : RestartPolicy → RestartRule
restart_rule RestartPolicy.always = restart_always
restart_rule RestartPolicy.on_failure = restart_on_failure
restart_rule p = restart_never

-- restartPolicyFromSpec
unfoldable pub restart_policy_from_spec : Option FlowSpec → RestartRule
restart_policy_from_spec none = restart_never
restart_policy_from_spec (some spec) = elim spec.kubernetes [
  | none ↦ restart_never
  | some k ↦ restart_rule k.restart_policy
]

-- cronConcurrencyPolicyFromSpec
unfoldable pub cron_concurrency_policy_from_spec : CronConcurrencyPolicy → ConcurrencyPolicy
cron_concurrency_policy_from_spec CronConcurrencyPolicy.forbid = forbid_concurrent
cron_concurrency_policy_from_spec CronConcurrencyPolicy.replace = replace_concurrent
cron_concurrency_policy_from_spec p = allow_concurrent

-- The variables that the controller sets.
unfoldable pub base_env : Bool → Text → List EnvVar
base_env false endpoint =
    record { name = codes "FLOWPIPE_OBSERVABILITY_ENABLED"; value = codes "false" } ∷ []
base_env true endpoint =
    record { name = codes "FLOWPIPE_OBSERVABILITY_ENABLED"; value = codes "true" }
    ∷ record { name = codes "FLOWPIPE_METRICS_ENABLED"; value = codes "true" }
    ∷ record { name = codes "FLOWPIPE_TRACING_ENABLED"; value = codes "true" }
    ∷ record { name = codes "FLOWPIPE_LOGS_ENABLED"; value = codes "true" }
    ∷ record { name = codes "OTEL_EXPORTER_OTLP_ENDPOINT"; value = endpoint }
    ∷ []

unfoldable pub has_name : Text → List EnvVar → Bool
has_name k [] = false
has_name k (e ∷ env) = text_eq e.name k || has_name k env

abbrev pub value_or_empty : Option Text → Text
value_or_empty none = []
value_or_empty (some v) = v

-- The variables of the spec under the given names, without those that the controller sets.
unfoldable pub extra_vars : List EnvVar → Dict → List Text → List EnvVar
extra_vars base extra [] = []
extra_vars base extra (k ∷ keys) =
    let rest = extra_vars base extra keys in
    if has_name k base
    then rest
    else record { name = k; value = value_or_empty (lookup k extra) } ∷ rest

-- runtimeEnv
unfoldable pub runtime_env : Bool → Text → Dict → List EnvVar
unfolding base_env extra_vars
runtime_env enabled endpoint extra =
    base_env enabled endpoint
    ++ extra_vars (base_env enabled endpoint) extra (sort (map (λ (e : Text × Text). e.0) extra))

abbrev drop_empty : List Text → List Text
drop_empty [] = []
drop_empty (n ∷ names) = let rest = drop_empty names in if is_empty n then rest else n ∷ rest

abbrev is_nil : List Text → Bool
is_nil [] = true
is_nil (n ∷ names) = false

abbrev name_or : Option Text → Text → Text
name_or none old = old
name_or (some n) old = n

abbrev class_or : Option Text → Option Text → Option Text
class_or none old = old
class_or (some n) old = some n

-- applyKubernetesOptions
unfoldable pub apply_kubernetes_options : PodTemplate → Option KubernetesOptions → PodTemplate
apply_kubernetes_options t none = t
apply_kubernetes_options t (some o) = record t {
  labels = insert_all_but flow_label_key o.pod_labels t.labels;
  annotations = insert_all_but runtime_config_hash_key o.pod_annotations t.annotations;
  service_account_name = name_or o.service_account_name t.service_account_name;
  image_pull_secrets =
      if is_nil o.image_pull_secrets then t.image_pull_secrets else drop_empty o.image_pull_secrets;
  runtime_class_name = class_or o.runtime_class_name t.runtime_class_name;
}

abbrev positive : Option ℕ → Option ℕ
positive none = none
positive (some n) = if ltb 0 n then some n else none

-- int64(n)*1000*1000, as the bits of the int64.
abbrev megabytes : Option ℕ → Option ℕ
megabytes none = none
megabytes (some n) = if ltb 0 n then some (n * 1000 * 1000 % 2 ^ 64) else none

abbrev or_old : Option ℕ → Option ℕ → Option ℕ
or_old none old = old
or_old (some n) old = some n

-- The annotation of the resource profile.
unfoldable pub annotate_profile : Option Text → Dict → Dict
annotate_profile none m = m
annotate_profile (some p) m = if is_empty p then m else insert resource_profile_key p m

-- The requests of the first container.
unfoldable pub set_requests : Resources → List Container → List Container
set_requests r [] = []
set_requests r (c ∷ cs) =
    record c {
      requests = record {
        cpu = or_old (positive r.cpu_cores) c.requests.cpu;
        memory = or_old (megabytes r.memory_mb) c.requests.memory;
      };
    }
    ∷ cs

-- applyResourceIntent
unfoldable pub apply_resource_intent : PodTemplate → Option Resources → PodTemplate
unfolding annotate_profile set_requests
apply_resource_intent t none = t
apply_resource_intent t (some r) = record t {
  annotations = annotate_profile r.profile t.annotations;
  containers = set_requests r t.containers;
}

-- What the four workloads share of their parameters.
pub record Settings : Type 0 where
  pub flow_name : Text
  pub config_map_name : Text
  pub image : Text
  pub image_pull_policy : PullPolicy
  pub config_checksum : Text
  pub observability_enabled : Bool
  pub otel_endpoint : Text
  pub resources : Option Resources
  pub options : Option KubernetesOptions
  pub env : Dict

-- The template before the resources and the options are applied.
unfoldable pub bare_template : Settings → Option RestartRule → PodTemplate
bare_template s restart = record {
  labels = (flow_label_key, s.flow_name) ∷ [];
  annotations = (runtime_config_hash_key, s.config_checksum) ∷ [];
  restart_policy = restart;
  containers =
      record {
        name = codes "runtime";
        image = s.image;
        image_pull_policy = s.image_pull_policy;
        args = runtime_config_path ∷ [];
        env = runtime_env s.observability_enabled s.otel_endpoint s.env;
        volume_mounts =
            record { name = codes "flow-config"; mount_path = runtime_config_mount_dir } ∷ [];
        requests = record { cpu = none; memory = none };
      }
      ∷ [];
  volumes = record { name = codes "flow-config"; config_map = s.config_map_name } ∷ [];
  service_account_name = [];
  image_pull_secrets = [];
  runtime_class_name = none;
}

-- runtimePodTemplate, and with no restart policy the template of applyDeployment and applyDaemonSet.
unfoldable pub runtime_pod_template : Settings → Option RestartRule → PodTemplate
unfolding bare_template apply_resource_intent apply_kubernetes_options
runtime_pod_template s restart =
    apply_kubernetes_options (apply_resource_intent (bare_template s restart) s.resources) s.options

-- ===== src/Controller/Tests.antt =====
-- The theorems on a flow's runtime at a concrete cluster, one object of each kind.
use flow_pipe.Controller.Concrete.{rendering}
use flow_pipe.Prelude.{◌≡◌, refl, true, false, none, some, inl, [], ◌∷◌, arith}
use flow_pipe.Text.{Text, codes, text_eq}
use flow_pipe.Dict.{lookup}
use flow_pipe.Proto.{
  FlowSpec, ExecutionMode, KubernetesOptions, named, ImagePullPolicy, RestartPolicy,
  StreamingWorkloadKind,
}
use flow_pipe.Remote.{served, refused, lost, World}
use flow_pipe.Controller.Kube.{
  config_map, deployment, daemon_set, job, cron_job, DeploymentSpec, JobSpec, Object, pull_always,
  PodTemplate,
}
use flow_pipe.Controller.Shelves.{Shelves, shelves, empty, look}
use flow_pipe.Controller.Runtime.{desired, ensure_runtime, runtime_name, config_name}
use flow_pipe.Controller.Runtime.Template.{
  base_env, has_name, runtime_env, Settings, runtime_pod_template, flow_label_key,
  runtime_config_hash_key,
}
use flow_pipe.Controller.Runtime.Frame.Ensure.{ensure_runtime_leaves}
use flow_pipe.Controller.Runtime.Frame.Jobs.{ensure_runtime_keeps_job}
use flow_pipe.Controller.Runtime.Env.{env_value, runtime_env_value}
use flow_pipe.Controller.Runtime.Identity.{template_keeps_identity}
use flow_pipe.Controller.Runtime.Deletion.{Remains, delete_runtime_resources_tries_all}

abbrev tiny : Text
tiny = codes "f"

abbrev space : Text
space = codes "ns"

abbrev options : KubernetesOptions
options = record {
  pod_labels = (flow_label_key, codes "other") ∷ [];
  pod_annotations = (runtime_config_hash_key, codes "other") ∷ [];
  service_account_name = none;
  image_pull_secrets = [];
  runtime_class_name = none;
  streaming_workload_kind = StreamingWorkloadKind.daemonset;
  cron = none;
}

-- A job.
abbrev batch : FlowSpec
batch = record (named tiny) {
  execution = some (record { mode = ExecutionMode.job });
  kubernetes = some (record {
    image = some (codes "img");
    image_pull_policy = ImagePullPolicy.always;
    restart_policy = RestartPolicy.never;
    resources = none;
  });
}

-- The same flow as a daemon set.
abbrev daemon : FlowSpec
daemon = record batch { execution = none; kubernetes_options = some options }

abbrev settings : Settings
settings = record {
  flow_name = tiny;
  config_map_name = config_name tiny;
  image = codes "img";
  image_pull_policy = pull_always;
  config_checksum = codes "abc";
  observability_enabled = false;
  otel_endpoint = [];
  resources = none;
  options = some options;
  env = [];
}

abbrev template : PodTemplate
template = runtime_pod_template settings none

abbrev old_job : Object JobSpec
old_job = desired space tiny tiny (record { template = template })

abbrev old_deployment : Object DeploymentSpec
old_deployment =
    desired space (runtime_name tiny) tiny
      (record { replicas = 1; selector = []; template = template })

abbrev cluster : Shelves
cluster = record empty { deployments = old_deployment ∷ []; jobs = old_job ∷ [] }

-- The second reply is lost.
abbrev faulty : World Shelves
faulty = record { server = cluster; net = served ∷ lost ∷ [] }

template_keeps_identity_example :
    (lookup flow_label_key template.labels ≡ some tiny)
    × (lookup runtime_config_hash_key template.annotations ≡ some (codes "abc"))
template_keeps_identity_example = template_keeps_identity settings none

ensure_runtime_keeps_job_example :
    shelves.find
      (ensure_runtime shelves true rendering space
        (some daemon)
        pull_always
        false
        []
        faulty).1.server
      job
      space
      tiny
    ≡ some old_job
unfolding look text_eq
ensure_runtime_keeps_job_example =
    ensure_runtime_keeps_job shelves true rendering space daemon pull_always false [] old_job faulty
      refl

-- The deployment of an earlier version of the flow stays beside the daemon set.
ensure_runtime_leaves_example :
    shelves.find
      (ensure_runtime shelves true rendering space
        (some daemon)
        pull_always
        false
        []
        faulty).1.server
      deployment
      space
      (runtime_name tiny)
    ≡ some old_deployment
unfolding look text_eq
ensure_runtime_leaves_example =
    ensure_runtime_leaves shelves true rendering space daemon pull_always false [] deployment space
      (runtime_name tiny) faulty (inl (λ e. ground arith)) (inl (λ e. ground arith))

-- The deletion of the deployment is refused, and that of the job is served though its reply is lost.
delete_runtime_resources_tries_all_example :
    Remains shelves space tiny refused served lost served served [] cluster deployment
      (runtime_name tiny)
      (some old_deployment)
    × Remains shelves space tiny refused served lost served served [] cluster daemon_set
        (runtime_name tiny)
        none
    × Remains shelves space tiny refused served lost served served [] cluster job tiny none
    × Remains shelves space tiny refused served lost served served [] cluster cron_job tiny none
    × Remains shelves space tiny refused served lost served served [] cluster config_map
        (config_name tiny)
        none
unfolding look text_eq
delete_runtime_resources_tries_all_example =
    delete_runtime_resources_tries_all shelves space tiny refused served lost served served []
      cluster refl

-- The spec cannot switch observability off under the controller's name for it.
runtime_env_value_example :
    env_value
      (codes "FLOWPIPE_OBSERVABILITY_ENABLED")
      (runtime_env true [] ((codes "FLOWPIPE_OBSERVABILITY_ENABLED", codes "false") ∷ []))
    ≡ some (codes "true")
unfolding base_env has_name env_value text_eq
runtime_env_value_example =
    runtime_env_value true [] ((codes "FLOWPIPE_OBSERVABILITY_ENABLED", codes "false") ∷ [])
      (codes "FLOWPIPE_OBSERVABILITY_ENABLED")

-- ===== src/Controller/Kube.antt =====
-- The Kubernetes objects that the controller writes, as far as it sets their fields, and the API
-- server (k8s.io/client-go/kubernetes), which it calls: an interface with the documented behaviour of
-- Get, Create, Update and Delete. `rest` stands for the part of an object that the server keeps.
use flow_pipe.Prelude.{ℕ, ◌≡◌, ◌≢◌, ◌⊎◌, Bool, Option, none, some, List}
use flow_pipe.Text.{Text}
use flow_pipe.Dict.{Dict}
use flow_pipe.Remote.{Remote, request}

pub data PullPolicy : Type 0 where
  pull_always pull_never pull_if_not_present : PullPolicy

pub data RestartRule : Type 0 where
  restart_always restart_on_failure restart_never : RestartRule

pub data ConcurrencyPolicy : Type 0 where
  allow_concurrent forbid_concurrent replace_concurrent : ConcurrencyPolicy

pub record EnvVar : Type 0 where
  pub name : Text
  pub value : Text

pub record VolumeMount : Type 0 where
  pub name : Text
  pub mount_path : Text

-- Resource requests: cores and bytes.
pub record Requests : Type 0 where
  pub cpu : Option ℕ
  pub memory : Option ℕ

pub record Container : Type 0 where
  pub name : Text
  pub image : Text
  pub image_pull_policy : PullPolicy
  pub args : List Text
  pub env : List EnvVar
  pub volume_mounts : List VolumeMount
  pub requests : Requests

-- A volume filled from a config map.
pub record Volume : Type 0 where
  pub name : Text
  pub config_map : Text

pub record PodTemplate : Type 0 where
  pub labels : Dict
  pub annotations : Dict
  pub restart_policy : Option RestartRule
  pub containers : List Container
  pub volumes : List Volume
  pub service_account_name : Text
  pub image_pull_secrets : List Text
  pub runtime_class_name : Option Text

pub record DeploymentSpec : Type 0 where
  pub replicas : ℕ
  pub selector : Dict
  pub template : PodTemplate

pub record DaemonSetSpec : Type 0 where
  pub selector : Dict
  pub template : PodTemplate

pub record JobSpec : Type 0 where
  pub template : PodTemplate

pub record CronJobSpec : Type 0 where
  pub schedule : Text
  pub time_zone : Option Text
  pub suspend : Option Bool
  pub starting_deadline_seconds : Option ℕ
  pub successful_jobs_history_limit : Option ℕ
  pub failed_jobs_history_limit : Option ℕ
  pub concurrency_policy : Option ConcurrencyPolicy
  pub job_template : JobSpec

pub data Kind : Type 0 where
  config_map deployment daemon_set job cron_job : Kind

-- The spec of each kind; of a config map, its data.
abbrev pub Body : Kind → Type 0
Body config_map = Dict
Body deployment = DeploymentSpec
Body daemon_set = DaemonSetSpec
Body job = JobSpec
Body cron_job = CronJobSpec

pub record Object (A : Type 0) : Type 0 where
  pub name : Text
  pub namespace : Text
  pub labels : Dict
  pub body : A
  pub rest : Text

-- Two objects are told apart by kind, namespace and name.
abbrev pub Apart : Kind → Text → Text → Kind → Text → Text → Type 0
Apart k ns n k' ns' n' = (k ≢ k') ⊎ ((ns ≢ ns') ⊎ (n ≢ n'))

pub record Kube : Type 1 where
  pub Cluster : Type 0
  pub find : Cluster → (k : Kind) → Text → Text → Option (Object (Body k))
  pub put : (k : Kind) → Object (Body k) → Cluster → Cluster
  pub remove : Kind → Text → Text → Cluster → Cluster
  pub find-name :
      (c : Cluster) (k : Kind) (ns n : Text) (o : Object (Body k))
      → find c k ns n ≡ some o
      → (o.namespace ≡ ns) × (o.name ≡ n)
  pub find-put :
      (k : Kind) (o : Object (Body k)) (c : Cluster)
      → find (put k o c) k o.namespace o.name ≡ some o
  pub find-put_apart :
      (k : Kind) (o : Object (Body k)) (c : Cluster) (j : Kind) (ns n : Text)
      → Apart k o.namespace o.name j ns n
      → find (put k o c) j ns n ≡ find c j ns n
  pub find-remove : (k : Kind) (ns n : Text) (c : Cluster) → find (remove k ns n c) k ns n ≡ none
  pub find-remove_apart :
      (k : Kind) (ns n : Text) (c : Cluster) (j : Kind) (ms m : Text)
      → Apart k ns n j ms m
      → find (remove k ns n c) j ms m ≡ find c j ms m

-- The errors of the reconciliation; an error of the API server names the kind that was asked for.
pub data RuntimeError : Type 0 where
  client_required spec_required name_required : RuntimeError
  image_required : Text → RuntimeError
  marshal_failed yaml_failed : RuntimeError
  api_error : Kind → RuntimeError
  joined : List Kind → RuntimeError

abbrev pub Calls : Kube → Type 0 → Type 0
Calls K A = Remote K.Cluster RuntimeError A

module _ (K : Kube) where
  -- Get: `none` is the server's NotFound.
  unfoldable pub get_object : (k : Kind) → Text → Text → Calls K (Option (Object (Body k)))
  unfolding request
  get_object k ns n = request (λ c. (K.find c k ns n, c)) (api_error k)

  -- Create of a new object, and Update of one that is there.
  unfoldable pub put_object : (k : Kind) → Object (Body k) → Calls K Unit
  unfolding request
  put_object k o = request (λ c. (tt, K.put k o c)) (api_error k)

  -- Delete; NotFound is passed over.
  unfoldable pub delete_object : Kind → Text → Text → Calls K Unit
  unfolding request
  delete_object k ns n = request (λ c. (tt, K.remove k ns n c)) (api_error k)

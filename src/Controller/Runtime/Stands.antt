-- ===== src/Controller/Runtime/Stands.antt =====
-- What a call of runtime.go that created or updated an object leaves in Kubernetes.
use flow_pipe.Prelude.{◌≡◌, ◌≢◌, refl, sym, Bool, true, false, Option, none, some, if◌then◌else◌}
use flow_pipe.Text.{Text}
use flow_pipe.Proto.{FlowSpec, ExecutionMode, KubernetesCronOptions}
use flow_pipe.Remote.{pure, ◌>>=◌}
use flow_pipe.Remote.Gives.{Gives, Gives-bind, Gives-pure, Gives-request}
use flow_pipe.Controller.Kube.{
  Kube, Kind, config_map, deployment, daemon_set, job, cron_job, Body, Object, PodTemplate,
  put_object, get_object,
}
use flow_pipe.Controller.Runtime.Template.{Settings, runtime_pod_template, restart_policy_from_spec}
use flow_pipe.Controller.Runtime.{
  write, create_or_update, apply_deployment, apply_daemon_set, apply_job, apply_cron_job,
  apply_workload, runtime_name, scheduled, wants_daemon_set,
}
use flow_pipe.Controller.Runtime.Frame.{job_kind, streaming_kind, kind_for, name_for}

-- The pod template in the spec of a workload.
abbrev pub template_of : (k : Kind) → Body k → Option PodTemplate
template_of config_map data_map = none
template_of deployment body = some body.template
template_of daemon_set body = some body.template
template_of job body = some body.template
template_of cron_job body = some body.job_template.template

-- The pod template that a spec asks for: a job's has the restart policy of the spec.
abbrev pub template_for : FlowSpec → Settings → ExecutionMode → PodTemplate
template_for spec s ExecutionMode.job =
    runtime_pod_template s (some (restart_policy_from_spec (some spec)))
template_for spec s _ = runtime_pod_template s none

module _ (K : Kube) where
  -- An object is there, with this spec.
  pub record Stands (k : Kind) (ns n : Text) (body : Body k) (c : K.Cluster) : Type 0 where
    pub object : Object (Body k)
    pub found : K.find c k ns n ≡ some object
    pub body_is : object.body ≡ body

  -- A workload is there that runs this pod template.
  pub record Runs (k : Kind) (ns n : Text) (t : PodTemplate) (c : K.Cluster) : Type 0 where
    pub object : Object (Body k)
    pub found : K.find c k ns n ≡ some object
    pub runs : template_of k object.body ≡ some t

  write-Stands :
      (k : Kind) (o : Object (Body k)) (current : Option (Object (Body k)))
      → Gives
          (λ c. current ≡ K.find c k o.namespace o.name)
          (λ (u : Unit) c. Stands k o.namespace o.name o.body c)
          (write K k o current)
  unfolding put_object
  write-Stands k o none =
      Gives-request _ _ λ c e. record { object = o; found = K.find-put k o c; body_is = refl }
  write-Stands k o (some q) = Gives-request _ _ λ c e.
      let named = K.find-name c k o.namespace o.name q (sym e) in
      let p = record q { labels = o.labels; body = o.body } in
      record {
        object = p;
        found = rw (sym named.0, sym named.1) (K.find-put k p c);
        body_is = refl;
      }

  pub create_or_update-Stands :
      (k : Kind) (o : Object (Body k))
      → Gives
          (λ c. Unit {0})
          (λ (u : Unit) c. Stands k o.namespace o.name o.body c)
          (create_or_update K k o)
  unfolding create_or_update get_object
  create_or_update-Stands k o =
      Gives-bind _ _ (Gives-request _ _ λ c u. refl) (λ current. write-Stands k o current)

  Stands-Runs :
      {k : Kind} {ns n : Text} {body : Body k} {t : PodTemplate} {c : K.Cluster}
      → template_of k body ≡ some t
      → Stands k ns n body c
      → Runs k ns n t c
  Stands-Runs {k} {ns} {n} {body} {t} e h = record {
    object = h.object;
    found = h.found;
    runs = rw h.body_is e;
  }

  -- A workload that is created or updated runs its template.
  workload-Runs :
      {A : Type 0} (k : Kind) (o : Object (Body k)) (t : PodTemplate) (a : A)
      → template_of k o.body ≡ some t
      → Gives
          (λ c. Unit {0})
          (λ (b : A) c. Runs k o.namespace o.name t c)
          (create_or_update K k o >>= λ _. pure a)
  workload-Runs k o t a e =
      Gives-bind _ _ (create_or_update-Stands k o) λ u. Gives-pure _ λ c h. Stands-Runs e h

  module _ (ns : Text) (spec : FlowSpec) (s : Settings) where
    job_choice-Runs :
        (x : Option KubernetesCronOptions)
        → job_kind x ≢ job
        → Gives
            (λ c. Unit {0})
            (λ (b : Text) c.
              Runs (job_kind x) ns spec.name (template_for spec s ExecutionMode.job) c)
            (elim x [ some cron ↦ apply_cron_job K ns spec s cron | none ↦ apply_job K ns spec s ])
    unfolding apply_cron_job
    job_choice-Runs none h = absurd (h refl)
    job_choice-Runs (some cron) h = workload-Runs cron_job _ _ _ refl

    streaming_choice-Runs :
        (b : Bool) (name : Text)
        → Gives
            (λ c. Unit {0})
            (λ (r : Text) c. Runs (streaming_kind b) ns name (runtime_pod_template s none) c)
            (if b then apply_daemon_set K ns name s else apply_deployment K ns name s)
    unfolding apply_daemon_set apply_deployment
    streaming_choice-Runs true name = workload-Runs daemon_set _ _ _ refl
    streaming_choice-Runs false name = workload-Runs deployment _ _ _ refl

    pub apply_workload-Runs :
        (mode : ExecutionMode)
        → kind_for spec mode ≢ job
        → Gives
            (λ c. Unit {0})
            (λ (r : Text) c.
              Runs (kind_for spec mode) ns (name_for spec mode) (template_for spec s mode) c)
            (apply_workload K ns spec s mode)
    unfolding apply_workload
    apply_workload-Runs ExecutionMode.job h = job_choice-Runs (scheduled spec.kubernetes_options) h
    apply_workload-Runs ExecutionMode.streaming h =
        streaming_choice-Runs (wants_daemon_set spec.kubernetes_options) (runtime_name spec.name)
    apply_workload-Runs ExecutionMode.unspecified h =
        streaming_choice-Runs false (runtime_name spec.name)

-- ===== src/Controller/Runtime/Frame.antt =====
-- What a reconciliation does not touch.
pub mod Ensure
pub mod Jobs
use flow_pipe.Prelude.{
  ◌≡◌, ◌≢◌, refl, subst, ap, sym, ◌∙◌, Bool, true, false, Option, none, some, Option-cases, inl,
  inr, ◌⊎◌, arith, if◌then◌else◌,
}
use flow_pipe.Text.{Text}
use flow_pipe.Proto.{FlowSpec, ExecutionMode}
use flow_pipe.Remote.{Remote, ◌>>=◌}
use flow_pipe.Remote.Laws.{Keeps, Keeps-request, Keeps-read, Keeps-bind, Keeps-pure, keeps_rules}
use flow_pipe.Controller.Kube.{
  Kube, Kind, config_map, deployment, daemon_set, job, cron_job, Body, Object, Apart, PullPolicy,
  put_object, get_object, api_error,
}
use flow_pipe.Controller.Runtime.Template.{Settings}
use flow_pipe.Controller.Runtime.{
  Rendering, write, create_or_update, apply_deployment, apply_daemon_set, apply_job, apply_cron_job,
  apply_config_map, apply_workload, ensure_checked, ensure_runtime, runtime_name, config_name,
  job_object, create_if_none, scheduled, wants_daemon_set, mode_of,
}

-- The kind and the name of the workload that a spec asks for: a job, or with a schedule a cron job,
-- under the flow's name; otherwise a daemon set, where the streaming mode asks for one, or a
-- deployment, under the runtime's name.
abbrev pub streaming_kind : Bool → Kind
streaming_kind true = daemon_set
streaming_kind false = deployment

abbrev pub job_kind {ℓ} : {A : Type ℓ} → Option A → Kind
job_kind none = job
job_kind (some c) = cron_job

abbrev pub kind_for : FlowSpec → ExecutionMode → Kind
kind_for spec ExecutionMode.job = job_kind (scheduled spec.kubernetes_options)
kind_for spec ExecutionMode.streaming = streaming_kind (wants_daemon_set spec.kubernetes_options)
kind_for spec ExecutionMode.unspecified = deployment

abbrev pub name_for : FlowSpec → ExecutionMode → Text
name_for spec ExecutionMode.job = spec.name
name_for spec _ = runtime_name spec.name

abbrev pub workload_kind : FlowSpec → Kind
workload_kind spec = kind_for spec (mode_of spec.execution)

abbrev pub workload_name : FlowSpec → Text
workload_name spec = name_for spec (mode_of spec.execution)

module _ (K : Kube) (j : Kind) (ms m : Text) (o : Option (Object (Body j))) where
  -- The object of this kind, namespace and name is `o`.
  abbrev pub Holds : K.Cluster → Type 0
  Holds c = K.find c j ms m ≡ o

  put_object-Holds :
      (k : Kind) (p : Object (Body k))
      → Apart k p.namespace p.name j ms m
      → Keeps Holds (put_object K k p)
  unfolding put_object
  put_object-Holds k p a = Keeps-request _ _ (λ c h. K.find-put_apart k p c j ms m a ∙ h)

  write-Holds :
      (k : Kind) (p : Object (Body k)) (c : K.Cluster)
      → Apart k p.namespace p.name j ms m
      → Keeps Holds (write K k p (K.find c k p.namespace p.name))
  write-Holds k p c a = elim (Option-cases (K.find c k p.namespace p.name)) [
    | inl e ↦ rw e (put_object-Holds k p a)
    | inr (q, e) ↦
        let named = K.find-name c k p.namespace p.name q e in
        rw e (
          put_object-Holds k (record q { labels = p.labels; body = p.body })
            (rw (named.0, named.1) a))
  ]

  pub create_or_update-Holds :
      (k : Kind) (p : Object (Body k))
      → Apart k p.namespace p.name j ms m
      → Keeps Holds (create_or_update K k p)
  unfolding create_or_update get_object
  create_or_update-Holds k p a = Keeps-read _ _ (write K k p) (λ c _. write-Holds k p c a)

  module _ (ns : Text) (spec : FlowSpec) (s : Settings) where
    pub apply_job-Holds : Apart job ns spec.name j ms m → Keeps Holds (apply_job K ns spec s)
    unfolding apply_job get_object job_object
    apply_job-Holds a =
        Keeps-read _ _ _
          λ c _. Keeps-bind _ _ (created (K.find c job ns spec.name)) (λ _. Keeps-pure _)
      where
        created :
            (found : Option (Object (Body job)))
            → Keeps Holds (create_if_none K (job_object spec s ns) found)
        created none = put_object-Holds job _ a
        created (some q) = Keeps-pure _

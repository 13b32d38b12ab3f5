-- ===== src/Controller/Runtime/Frame/Jobs.antt =====
-- A job that is there: applyJob finds it and creates no other.
use flow_pipe.Prelude.{◌≡◌, ◌≢◌, Bool, true, false, Option, none, some, inl, arith}
use flow_pipe.Text.{Text}
use flow_pipe.Text.FilePath.{is_empty}
use flow_pipe.Proto.{FlowSpec, ExecutionMode, KubernetesCronOptions}
use flow_pipe.Remote.{World}
use flow_pipe.Remote.Laws.{Keeps, Keeps-read, Keeps-bind, Keeps-pure, Keeps-if, Keeps-raise}
use flow_pipe.Controller.Kube.{
  Kube, job, cron_job, JobSpec, Object, PullPolicy, get_object, name_required, image_required,
}
use flow_pipe.Controller.Runtime.Template.{Settings}
use flow_pipe.Controller.Runtime.{
  Rendering, apply_job, apply_cron_job, apply_workload, ensure_checked, ensure_runtime, mode_of,
  scheduled, wants_daemon_set, image_of,
}
use flow_pipe.Controller.Runtime.Frame.{Holds, streaming_kind, create_or_update-Holds}
use flow_pipe.Controller.Runtime.Frame.Ensure.{apply_config_map-Holds, apply_workload-Holds}

streaming_kind-ne-job : (b : Bool) → streaming_kind b ≢ job
streaming_kind-ne-job true e = ground arith
streaming_kind-ne-job false e = ground arith

module _ (K : Kube) (ns : Text) (spec : FlowSpec) (q : Object JobSpec) where
  abbrev JobStays : K.Cluster → Type 0
  JobStays = Holds K job ns spec.name (some q)

  module _ (s : Settings) where
    apply_job-JobStays : Keeps JobStays (apply_job K ns spec s)
    unfolding apply_job get_object
    apply_job-JobStays =
        Keeps-read _ _ _ λ c h. rw h (Keeps-bind _ _ (Keeps-pure tt) (λ _. Keeps-pure _))

    job_choice-JobStays :
        (x : Option KubernetesCronOptions)
        → Keeps JobStays
            (elim x [ some cron ↦ apply_cron_job K ns spec s cron | none ↦ apply_job K ns spec s ])
    unfolding apply_cron_job
    job_choice-JobStays none = apply_job-JobStays
    job_choice-JobStays (some cron) =
        Keeps-bind _ _
          (create_or_update-Holds K job ns spec.name (some q) cron_job _ (inl (λ e. ground arith)))
          (λ _. Keeps-pure _)

    apply_workload-JobStays :
        (mode : ExecutionMode) → Keeps JobStays (apply_workload K ns spec s mode)
    unfolding apply_workload
    apply_workload-JobStays ExecutionMode.job =
        job_choice-JobStays (scheduled spec.kubernetes_options)
    apply_workload-JobStays ExecutionMode.streaming =
        apply_workload-Holds K job ns spec.name (some q) ns spec s ExecutionMode.streaming
          (inl (streaming_kind-ne-job (wants_daemon_set spec.kubernetes_options)))
    apply_workload-JobStays ExecutionMode.unspecified =
        apply_workload-Holds K job ns spec.name (some q) ns spec s ExecutionMode.unspecified
          (inl (λ e. ground arith))

  ensure_checked-JobStays :
      (R : Rendering) (policy : PullPolicy) (enabled : Bool) (endpoint : Text)
      → Keeps JobStays (ensure_checked K R ns spec policy enabled endpoint)
  unfolding ensure_checked
  ensure_checked-JobStays R policy enabled endpoint =
      Keeps-bind _ _
        (apply_config_map-Holds K job ns spec.name (some q) R ns spec (inl (λ e. ground arith)))
        (λ checksum. apply_workload-JobStays _ (mode_of spec.execution))

  ensure_runtime-JobStays :
      (client : Bool) (R : Rendering) (policy : PullPolicy) (enabled : Bool) (endpoint : Text)
      → Keeps JobStays (ensure_runtime K client R ns (some spec) policy enabled endpoint)
  unfolding ensure_runtime
  ensure_runtime-JobStays false R policy enabled endpoint = Keeps-raise _
  ensure_runtime-JobStays true R policy enabled endpoint =
      Keeps-if (is_empty spec.name) _ _ (Keeps-raise name_required) (
        Keeps-if (is_empty (image_of spec.kubernetes)) _ _ (Keeps-raise (image_required spec.name))
          (ensure_checked-JobStays R policy enabled endpoint))

-- A job of the flow's name that is in the namespace is the same object after ensureRuntime for a
-- spec of that name, whatever the spec asks for and whatever the network does: a job is never
-- updated to a new version of its flow.
pub ensure_runtime_keeps_job :
    (K : Kube) (client : Bool) (R : Rendering) (ns : Text) (spec : FlowSpec) (policy : PullPolicy)
    (enabled : Bool) (endpoint : Text) (q : Object JobSpec) (w : World K.Cluster)
    → K.find w.server job ns spec.name ≡ some q
    → K.find
        (ensure_runtime K client R ns (some spec) policy enabled endpoint w).1.server
        job
        ns
        spec.name
      ≡ some q
ensure_runtime_keeps_job K client R ns spec policy enabled endpoint q w h =
    (ensure_runtime-JobStays K ns spec q client R policy enabled endpoint).after w h

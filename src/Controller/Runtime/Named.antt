-- ===== src/Controller/Runtime/Named.antt =====
-- ensureRuntime returns the name of the workload that the spec asks for.
use flow_pipe.Prelude.{Bool, true, false, Option, none, some}
use flow_pipe.Text.{Text}
use flow_pipe.Text.FilePath.{is_empty}
use flow_pipe.Proto.{FlowSpec, ExecutionMode, KubernetesCronOptions}
use flow_pipe.Remote.Returns.{Returns, bind-Returns, pure-Returns, raise-Returns, if-Returns}
use flow_pipe.Controller.Kube.{Kube, PullPolicy}
use flow_pipe.Controller.Runtime.{
  Rendering, apply_workload, apply_job, apply_cron_job, apply_deployment, apply_daemon_set,
  ensure_checked, ensure_runtime, runtime_name, scheduled, wants_daemon_set, mode_of, image_of,
}
use flow_pipe.Controller.Runtime.Template.{Settings}
use flow_pipe.Controller.Runtime.Frame.{workload_name, name_for}

module _ (K : Kube) (ns : Text) (spec : FlowSpec) (s : Settings) where
  apply_job-Returns : Returns spec.name (apply_job K ns spec s)
  unfolding apply_job
  apply_job-Returns = bind-Returns _ _ _ λ c. bind-Returns _ _ _ λ d. pure-Returns _

  job_choice-Returns :
      (x : Option KubernetesCronOptions)
      → Returns spec.name
          (elim x [ some cron ↦ apply_cron_job K ns spec s cron | none ↦ apply_job K ns spec s ])
  unfolding apply_cron_job
  job_choice-Returns none = apply_job-Returns
  job_choice-Returns (some cron) = bind-Returns _ _ _ λ d. pure-Returns _

  apply_deployment-Returns : (name : Text) → Returns name (apply_deployment K ns name s)
  unfolding apply_deployment
  apply_deployment-Returns name = bind-Returns _ _ _ λ d. pure-Returns _

  apply_daemon_set-Returns : (name : Text) → Returns name (apply_daemon_set K ns name s)
  unfolding apply_daemon_set
  apply_daemon_set-Returns name = bind-Returns _ _ _ λ d. pure-Returns _

  apply_workload-Returns :
      (mode : ExecutionMode) → Returns (name_for spec mode) (apply_workload K ns spec s mode)
  unfolding apply_workload
  apply_workload-Returns ExecutionMode.job = job_choice-Returns (scheduled spec.kubernetes_options)
  apply_workload-Returns ExecutionMode.streaming =
      if-Returns _ (wants_daemon_set spec.kubernetes_options) _ _
        (apply_daemon_set-Returns (runtime_name spec.name))
        (apply_deployment-Returns (runtime_name spec.name))
  apply_workload-Returns ExecutionMode.unspecified =
      apply_deployment-Returns (runtime_name spec.name)

module _ (K : Kube) (R : Rendering) (ns : Text) (spec : FlowSpec) where
  pub ensure_runtime-Returns :
      (client : Bool) (policy : PullPolicy) (enabled : Bool) (endpoint : Text)
      → Returns
          (workload_name spec)
          (ensure_runtime K client R ns (some spec) policy enabled endpoint)
  unfolding ensure_runtime ensure_checked
  ensure_runtime-Returns false policy enabled endpoint = raise-Returns _ _
  ensure_runtime-Returns true policy enabled endpoint =
      if-Returns _ (is_empty spec.name) _ _ (raise-Returns _ _) (
        if-Returns _ (is_empty (image_of spec.kubernetes)) _ _ (raise-Returns _ _) (
          bind-Returns _ _ _
            λ checksum. apply_workload-Returns K ns spec _ (mode_of spec.execution)))

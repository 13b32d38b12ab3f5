-- ===== src/Controller/Runtime/Frame/Ensure.antt =====
-- ensureRuntime writes the config map and the workload that the spec asks for, and nothing else.
use flow_pipe.Prelude.{◌≡◌, refl, Bool, true, false, Option, none, some, if◌then◌else◌}
use flow_pipe.Text.{Text}
use flow_pipe.Text.FilePath.{is_empty}
use flow_pipe.Proto.{FlowSpec, ExecutionMode, KubernetesCronOptions}
use flow_pipe.Remote.{World}
use flow_pipe.Remote.Laws.{Keeps, Keeps-bind, Keeps-pure, Keeps-if, Keeps-raise, Keeps-lift}
use flow_pipe.Controller.Kube.{
  Kube, Kind, config_map, deployment, daemon_set, cron_job, Body, Object, Apart, PullPolicy,
  name_required, image_required,
}
use flow_pipe.Controller.Runtime.Template.{Settings}
use flow_pipe.Controller.Runtime.{
  Rendering, apply_deployment, apply_daemon_set, apply_job, apply_cron_job, apply_config_map,
  apply_workload, ensure_checked, ensure_runtime, config_name, scheduled, wants_daemon_set, mode_of,
  image_of,
}
use flow_pipe.Controller.Runtime.Frame.{
  Holds, job_kind, streaming_kind, kind_for, name_for, workload_kind, workload_name,
  create_or_update-Holds, apply_job-Holds,
}

module _ (K : Kube) (j : Kind) (ms m : Text) (o : Option (Object (Body j))) where
  pub apply_config_map-Holds :
      (R : Rendering) (ns : Text) (spec : FlowSpec)
      → Apart config_map ns (config_name spec.name) j ms m
      → Keeps (Holds K j ms m o) (apply_config_map K R ns (config_name spec.name) spec)
  unfolding apply_config_map
  apply_config_map-Holds R ns spec a = Keeps-lift _ _ λ json _. Keeps-lift _ _ λ yaml _.
      Keeps-bind _ _ (create_or_update-Holds K j ms m o config_map _ a) (λ _. Keeps-pure _)

  module _ (ns : Text) (spec : FlowSpec) (s : Settings) where
    job_choice-Holds :
        (x : Option KubernetesCronOptions)
        → Apart (job_kind x) ns spec.name j ms m
        → Keeps
            (Holds K j ms m o)
            (elim x [ some cron ↦ apply_cron_job K ns spec s cron | none ↦ apply_job K ns spec s ])
    unfolding apply_cron_job
    job_choice-Holds none a = apply_job-Holds K j ms m o ns spec s a
    job_choice-Holds (some cron) a =
        Keeps-bind _ _ (create_or_update-Holds K j ms m o cron_job _ a) (λ _. Keeps-pure _)

    apply_deployment-Holds :
        (name : Text)
        → Apart deployment ns name j ms m
        → Keeps (Holds K j ms m o) (apply_deployment K ns name s)
    unfolding apply_deployment
    apply_deployment-Holds name a =
        Keeps-bind _ _ (create_or_update-Holds K j ms m o deployment _ a) (λ _. Keeps-pure _)

    streaming_choice-Holds :
        (b : Bool) (name : Text)
        → Apart (streaming_kind b) ns name j ms m
        → Keeps
            (Holds K j ms m o)
            (if b then apply_daemon_set K ns name s else apply_deployment K ns name s)
    unfolding apply_daemon_set
    streaming_choice-Holds true name a =
        Keeps-bind _ _ (create_or_update-Holds K j ms m o daemon_set _ a) (λ _. Keeps-pure _)
    streaming_choice-Holds false name a = apply_deployment-Holds name a

    pub apply_workload-Holds :
        (mode : ExecutionMode)
        → Apart (kind_for spec mode) ns (name_for spec mode) j ms m
        → Keeps (Holds K j ms m o) (apply_workload K ns spec s mode)
    unfolding apply_workload
    apply_workload-Holds ExecutionMode.job a =
        job_choice-Holds (scheduled spec.kubernetes_options) a
    apply_workload-Holds ExecutionMode.streaming a =
        streaming_choice-Holds (wants_daemon_set spec.kubernetes_options) _ a
    apply_workload-Holds ExecutionMode.unspecified a = apply_deployment-Holds _ a

  ensure_checked-Holds :
      (R : Rendering) (ns : Text) (spec : FlowSpec) (policy : PullPolicy) (enabled : Bool)
      (endpoint : Text)
      → Apart config_map ns (config_name spec.name) j ms m
      → Apart (workload_kind spec) ns (workload_name spec) j ms m
      → Keeps (Holds K j ms m o) (ensure_checked K R ns spec policy enabled endpoint)
  unfolding ensure_checked
  ensure_checked-Holds R ns spec policy enabled endpoint a b =
      Keeps-bind _ _ (apply_config_map-Holds R ns spec a)
        (λ checksum. apply_workload-Holds ns spec _ (mode_of spec.execution) b)

  ensure_runtime-Holds :
      (client : Bool) (R : Rendering) (ns : Text) (spec : FlowSpec) (policy : PullPolicy)
      (enabled : Bool) (endpoint : Text)
      → Apart config_map ns (config_name spec.name) j ms m
      → Apart (workload_kind spec) ns (workload_name spec) j ms m
      → Keeps (Holds K j ms m o) (ensure_runtime K client R ns (some spec) policy enabled endpoint)
  unfolding ensure_runtime
  ensure_runtime-Holds false R ns spec policy enabled endpoint a b = Keeps-raise _
  ensure_runtime-Holds true R ns spec policy enabled endpoint a b =
      Keeps-if (is_empty spec.name) _ _ (Keeps-raise name_required) (
        Keeps-if (is_empty (image_of spec.kubernetes)) _ _ (Keeps-raise (image_required spec.name))
          (ensure_checked-Holds R ns spec policy enabled endpoint a b))

-- ensureRuntime for a spec, whatever the network does: an object that differs by kind, namespace or
-- name from the config map `<flow>-config` and from the workload that the spec asks for is after the
-- call what it was before, or absent as before. So the workload of another kind that an earlier
-- version of the spec asked for stays.
pub ensure_runtime_leaves :
    (K : Kube) (client : Bool) (R : Rendering) (ns : Text) (spec : FlowSpec) (policy : PullPolicy)
    (enabled : Bool) (endpoint : Text) (j : Kind) (ms m : Text) (w : World K.Cluster)
    → Apart config_map ns (config_name spec.name) j ms m
    → Apart (workload_kind spec) ns (workload_name spec) j ms m
    → K.find (ensure_runtime K client R ns (some spec) policy enabled endpoint w).1.server j ms m
      ≡ K.find w.server j ms m
ensure_runtime_leaves K client R ns spec policy enabled endpoint j ms m w a b =
    (ensure_runtime-Holds K j ms m (K.find w.server j ms m) client R ns spec policy enabled endpoint
        a b).after
      w refl

-- ===== src/Controller/Runtime/Ready.antt =====
-- Where ensureRuntime has what it needs and no call fails, it succeeds.
use flow_pipe.Prelude.{◌≡◌, ap, Bool, true, false, Option, none, some, if◌then◌else◌}
use flow_pipe.Text.{Text}
use flow_pipe.Text.FilePath.{is_empty}
use flow_pipe.Proto.{FlowSpec, ExecutionMode, KubernetesCronOptions}
use flow_pipe.Remote.{or_else}
use flow_pipe.Remote.Succeeds.{
  Succeeds, Succeeds-bind, Succeeds-pure, Succeeds-lift, Succeeds-request,
}
use flow_pipe.Controller.Kube.{
  Kube, Kind, Body, Object, PullPolicy, JobSpec, put_object, get_object, marshal_failed,
  yaml_failed,
}
use flow_pipe.Controller.Runtime.Template.{Settings}
use flow_pipe.Controller.Runtime.{
  Rendering, write, create_or_update, create_if_none, apply_deployment, apply_daemon_set, apply_job,
  apply_cron_job, apply_config_map, apply_workload, ensure_checked, ensure_runtime, config_name,
  scheduled, wants_daemon_set, mode_of, image_of, runtime_name,
}

-- What ensureRuntime asks of a spec: a name, an image, and a rendering.
pub record IsReady (R : Rendering) (spec : FlowSpec) : Type 0 where
  pub json : Text
  pub yaml : Text
  pub named : is_empty spec.name ≡ false
  pub imaged : is_empty (image_of spec.kubernetes) ≡ false
  pub to_json : R.to_json spec ≡ some json
  pub to_yaml : R.json_to_yaml json ≡ some yaml

module _ (K : Kube) where
  write-Succeeds :
      (k : Kind) (o : Object (Body k)) (current : Option (Object (Body k)))
      → Succeeds (write K k o current)
  unfolding put_object
  write-Succeeds k o none = Succeeds-request _ _
  write-Succeeds k o (some q) = Succeeds-request _ _

  create_or_update-Succeeds : (k : Kind) (o : Object (Body k)) → Succeeds (create_or_update K k o)
  unfolding create_or_update get_object
  create_or_update-Succeeds k o = Succeeds-bind _ _ (Succeeds-request _ _) (write-Succeeds k o)

  create_if_none-Succeeds :
      (o : Object JobSpec) (current : Option (Object JobSpec))
      → Succeeds (create_if_none K o current)
  unfolding put_object
  create_if_none-Succeeds o none = Succeeds-request _ _
  create_if_none-Succeeds o (some q) = Succeeds-pure tt

  module _ (ns : Text) (spec : FlowSpec) (s : Settings) where
    job_choice-Succeeds :
        (x : Option KubernetesCronOptions)
        → Succeeds
            (elim x [ some cron ↦ apply_cron_job K ns spec s cron | none ↦ apply_job K ns spec s ])
    unfolding apply_cron_job apply_job get_object
    job_choice-Succeeds none =
        Succeeds-bind _ _ (Succeeds-request _ _)
          λ current. Succeeds-bind _ _ (create_if_none-Succeeds _ current) λ u. Succeeds-pure _
    job_choice-Succeeds (some cron) =
        Succeeds-bind _ _ (create_or_update-Succeeds _ _) λ u. Succeeds-pure _

    streaming_choice-Succeeds :
        (b : Bool) (name : Text)
        → Succeeds (if b then apply_daemon_set K ns name s else apply_deployment K ns name s)
    unfolding apply_daemon_set apply_deployment
    streaming_choice-Succeeds true name =
        Succeeds-bind _ _ (create_or_update-Succeeds _ _) λ u. Succeeds-pure _
    streaming_choice-Succeeds false name =
        Succeeds-bind _ _ (create_or_update-Succeeds _ _) λ u. Succeeds-pure _

    apply_workload-Succeeds : (mode : ExecutionMode) → Succeeds (apply_workload K ns spec s mode)
    unfolding apply_workload
    apply_workload-Succeeds ExecutionMode.job =
        job_choice-Succeeds (scheduled spec.kubernetes_options)
    apply_workload-Succeeds ExecutionMode.streaming =
        streaming_choice-Succeeds (wants_daemon_set spec.kubernetes_options)
          (runtime_name spec.name)
    apply_workload-Succeeds ExecutionMode.unspecified =
        streaming_choice-Succeeds false (runtime_name spec.name)

  module _ (R : Rendering) (ns : Text) (spec : FlowSpec) (ready : IsReady R spec) where
    apply_config_map-Succeeds : Succeeds (apply_config_map K R ns (config_name spec.name) spec)
    unfolding apply_config_map
    apply_config_map-Succeeds =
        Succeeds-lift _ ready.json _ (ap (λ o. or_else o marshal_failed) ready.to_json) (
          Succeeds-lift _ ready.yaml _ (ap (λ o. or_else o yaml_failed) ready.to_yaml)
            (Succeeds-bind _ _ (create_or_update-Succeeds _ _) λ u. Succeeds-pure _))

    pub ensure_runtime-Succeeds :
        (policy : PullPolicy) (enabled : Bool) (endpoint : Text)
        → Succeeds (ensure_runtime K true R ns (some spec) policy enabled endpoint)
    unfolding ensure_runtime ensure_checked
    ensure_runtime-Succeeds policy enabled endpoint =
        rw (ready.named, ready.imaged)
          (Succeeds-bind _ _ apply_config_map-Succeeds
            λ checksum. apply_workload-Succeeds ns spec _ (mode_of spec.execution))

-- ===== src/Controller/Runtime/Installed.antt =====
-- What stands in Kubernetes behind an ensureRuntime that succeeded.
use flow_pipe.Prelude.{◌≡◌, ◌≢◌, refl, Bool, true, false, Option, none, some, inl, [], ◌∷◌, arith}
use flow_pipe.Text.{Text}
use flow_pipe.Text.FilePath.{is_empty}
use flow_pipe.Proto.{FlowSpec, ExecutionMode, KubernetesCronOptions}
use flow_pipe.Remote.{World, ok, or_else}
use flow_pipe.Remote.Gives.{Gives, Gives-bind, Gives-lift, Gives-pure, Gives-raise, Gives-if}
use flow_pipe.Controller.Kube.{
  Kube, config_map, job, PullPolicy, name_required, image_required, client_required,
}
use flow_pipe.Controller.Runtime.Template.{Settings, runtime_config_key}
use flow_pipe.Controller.Runtime.{
  Rendering, apply_config_map, apply_workload, ensure_checked, ensure_runtime, config_name,
  scheduled, wants_daemon_set, mode_of, image_of, resources_of,
}
use flow_pipe.Controller.Runtime.Frame.{
  job_kind, streaming_kind, kind_for, workload_kind, workload_name,
}
use flow_pipe.Controller.Runtime.Frame.Ensure.{apply_workload-Holds}
use flow_pipe.Controller.Runtime.Stands.{
  template_for, Stands, Runs, create_or_update-Stands, apply_workload-Runs,
}

or_else-ok : {E A : Type 0} (o : Option A) (e : E) {a : A} → or_else o e ≡ ok a → o ≡ some a
or_else-ok none e h = ground arith
or_else-ok (some b) e h = cc

-- No workload is a config map.
job_kind-ne-config : (x : Option KubernetesCronOptions) → job_kind x ≢ config_map
job_kind-ne-config none e = ground arith
job_kind-ne-config (some c) e = ground arith

streaming_kind-ne-config : (b : Bool) → streaming_kind b ≢ config_map
streaming_kind-ne-config true e = ground arith
streaming_kind-ne-config false e = ground arith

kind_for-ne-config : (spec : FlowSpec) (mode : ExecutionMode) → kind_for spec mode ≢ config_map
kind_for-ne-config spec ExecutionMode.job = job_kind-ne-config (scheduled spec.kubernetes_options)
kind_for-ne-config spec ExecutionMode.streaming =
    streaming_kind-ne-config (wants_daemon_set spec.kubernetes_options)
kind_for-ne-config spec ExecutionMode.unspecified = streaming_kind-ne-config false

module _ (K : Kube) where
  module _ (R : Rendering) (ns : Text) (spec : FlowSpec) where
    -- The config map with the rendering of the spec, and the checksum of that rendering.
    pub record IsRendered (checksum : Text) (c : K.Cluster) : Type 0 where
      pub json : Text
      pub yaml : Text
      pub to_json : R.to_json spec ≡ some json
      pub to_yaml : R.json_to_yaml json ≡ some yaml
      pub checked : checksum ≡ R.checksum yaml
      pub config :
          Stands K config_map ns (config_name spec.name) ((runtime_config_key, yaml) ∷ []) c

    apply_config_map-IsRendered :
        Gives (λ c. Unit {0}) IsRendered (apply_config_map K R ns (config_name spec.name) spec)
    unfolding apply_config_map
    apply_config_map-IsRendered = Gives-lift _ _ λ json ej. Gives-lift _ _ λ yaml ey.
        Gives-bind _ _ (create_or_update-Stands K config_map _) λ u. Gives-pure _ λ c h. record {
          json = json;
          yaml = yaml;
          to_json = or_else-ok (R.to_json spec) _ ej;
          to_yaml = or_else-ok (R.json_to_yaml json) _ ey;
          checked = refl;
          config = h;
        }

    -- The settings of the workload, for the checksum of what is rendered.
    abbrev pub settings_for : PullPolicy → Bool → Text → Text → Settings
    settings_for policy enabled endpoint checksum = record {
      flow_name = spec.name;
      config_map_name = config_name spec.name;
      image = image_of spec.kubernetes;
      image_pull_policy = policy;
      config_checksum = checksum;
      observability_enabled = enabled;
      otel_endpoint = endpoint;
      resources = resources_of spec.kubernetes;
      options = spec.kubernetes_options;
      env = spec.env;
    }

    -- The rendering, and the workload that runs the spec's pod template with its checksum.
    pub record Installed (policy : PullPolicy) (enabled : Bool) (endpoint : Text) (c : K.Cluster)
        : Type 0 where
      pub checksum : Text
      pub rendered : IsRendered checksum c
      pub workload :
          Runs K
            (workload_kind spec)
            ns
            (workload_name spec)
            (template_for spec
              (settings_for policy enabled endpoint checksum)
              (mode_of spec.execution))
            c

    module _ (policy : PullPolicy) (enabled : Bool) (endpoint : Text)
        (no_job : workload_kind spec ≢ job) where
      workload-Installed :
          (checksum : Text)
          → Gives
              (IsRendered checksum)
              (λ (r : Text) c. Installed policy enabled endpoint c)
              (apply_workload K ns spec
                (settings_for policy enabled endpoint checksum)
                (mode_of spec.execution))
      workload-Installed checksum = record {
        holds = λ w p r e.
            let s = settings_for policy enabled endpoint checksum in
            let mode = mode_of spec.execution in
            let kept =
              apply_workload-Holds K config_map ns (config_name spec.name) (some p.config.object) ns
                spec s mode (inl (kind_for-ne-config spec mode)) in
            record {
              checksum = checksum;
              rendered = record {
                json = p.json;
                yaml = p.yaml;
                to_json = p.to_json;
                to_yaml = p.to_yaml;
                checked = p.checked;
                config = record {
                  object = p.config.object;
                  found = kept.after w p.config.found;
                  body_is = p.config.body_is;
                };
              };
              workload = (apply_workload-Runs K ns spec s mode no_job).holds w tt r e;
            };
      }

      ensure_runtime-Installed :
          (client : Bool)
          → Gives
              (λ c. Unit {0})
              (λ (r : Text) c. Installed policy enabled endpoint c)
              (ensure_runtime K client R ns (some spec) policy enabled endpoint)
      unfolding ensure_runtime ensure_checked
      ensure_runtime-Installed false = Gives-raise client_required
      ensure_runtime-Installed true =
          Gives-if (is_empty spec.name) _ _ (Gives-raise name_required) (
            Gives-if (is_empty (image_of spec.kubernetes)) _ _
              (Gives-raise (image_required spec.name))
              (Gives-bind _ _ apply_config_map-IsRendered workload-Installed))

-- If ensureRuntime succeeds for a spec that does not ask for a plain job, then, whatever the network
-- did, the config map holds the YAML rendering of the spec, and the workload of the kind and name that
-- the spec asks for is there and runs the spec's pod template, made with the checksum of that
-- rendering.
pub ensure_runtime_installs :
    (K : Kube) (client : Bool) (R : Rendering) (ns : Text) (spec : FlowSpec) (policy : PullPolicy)
    (enabled : Bool) (endpoint name : Text) (w : World K.Cluster)
    → workload_kind spec ≢ job
    → (ensure_runtime K client R ns (some spec) policy enabled endpoint w).0 ≡ ok name
    → Installed K R ns spec policy enabled endpoint
        (ensure_runtime K client R ns (some spec) policy enabled endpoint w).1.server
ensure_runtime_installs K client R ns spec policy enabled endpoint name w no_job e =
    (ensure_runtime-Installed K R ns spec policy enabled endpoint no_job client).holds w tt name e

-- ===== src/Controller/Concrete.antt =====
-- A concrete rendering, configuration and queue.
use flow_pipe.Prelude.{ℕ, true, false, Option, none, some, []}
use flow_pipe.Text.{Text, codes}
use flow_pipe.Controller.RateLimiting.Instance.{items, no_items}
use flow_pipe.Controller.Queue.{MemoryQueue}
use flow_pipe.Controller.Runtime.{Rendering}
use flow_pipe.Controller.Reconcile.{ControllerConfig}

abbrev pub no_times : Text → Option ℕ
no_times k = none

abbrev pub empty_queue : MemoryQueue items
empty_queue = record { q = no_items; enqueued = no_times }

-- The JSON of a spec is its name.
abbrev pub rendering : Rendering
rendering = record {
  to_json = λ spec. some spec.name;
  json_to_yaml = λ json. some json;
  checksum = λ yaml. yaml;
}

abbrev pub config : ControllerConfig
config = record {
  has_client = true;
  runtime_namespace = codes "ns";
  observability_enabled = false;
  otel_endpoint = [];
}

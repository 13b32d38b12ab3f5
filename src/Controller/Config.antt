-- ===== src/Controller/Config.antt =====
-- The controller's configuration: Config of controller/internal/config/config.go. A time.Duration is its
-- number of nanoseconds.
pub mod Load
use flow_pipe.Prelude.{Bool, List}
use flow_pipe.Text.{Text}
use flow_pipe.Text.Integer.{ℤ}

pub record Config : Type 0 where
  pub etcd_endpoints : List Text
  pub otlp_endpoint : Text
  pub service_name : Text
  pub runtime_namespace : Text
  pub observability_enabled : Bool
  pub log_level : Text
  pub worker_count : ℤ
  pub leader_election_enabled : Bool
  pub leader_election_name : Text
  pub leader_election_namespace : Text
  pub leader_election_lease_duration : ℤ
  pub leader_election_renew_deadline : ℤ
  pub leader_election_retry_period : ℤ

-- ===== src/Controller/Config/Load.antt =====
-- Load of controller/internal/config/load.go, with env.go beside it. envOrDefault, envBoolOrDefault and
-- splitComma are those of the API server's configuration, word for word, and are not repeated.
-- time.ParseDuration, whose fractions go through floating point, is a parameter.
pub mod Workers
mod Tests
use flow_pipe.Prelude.{ℕ, zero, suc, ◌*◌, Option, none, some, false, true, [], if◌then◌else◌}
use flow_pipe.Text.{Text, codes}
use flow_pipe.Text.FilePath.{is_empty}
use flow_pipe.Text.Integer.{ℤ, pos, negsuc, atoi}
use flow_pipe.Api.Config.Load.{
  Env, Flags, env_or_default, env_bool_or_default, split_comma, or_given, flag_string, flag_bool,
}
use flow_pipe.Controller.Config.{Config}

-- What the command line gives.
pub record CommandLine : Type 0 where
  pub flags : Flags
  pub ints : Text → Option ℤ
  pub durations : Text → Option ℤ

-- envIntOrDefault
abbrev pub env_int_or_default : Env → Text → ℤ → ℤ
env_int_or_default env key def = if is_empty (env key) then def else or_given (atoi (env key)) def

-- envDurationOrDefault
abbrev pub env_duration_or_default : (Text → Option ℤ) → Env → Text → ℤ → ℤ
env_duration_or_default parse_duration env key def =
    if is_empty (env key) then def else or_given (parse_duration (env key)) def

-- if workers < 1 { workers = 1 }
abbrev pub one_at_least : ℤ → ℤ
one_at_least (pos zero) = pos 1
one_at_least (pos (suc n)) = pos (suc n)
one_at_least (negsuc n) = pos 1

abbrev seconds : ℕ → ℤ
seconds n = pos (n * 1000000000)

-- Load
unfoldable pub load : (Text → Option ℤ) → Env → CommandLine → Config
unfolding split_comma atoi
load parse_duration env line =
    let duration = λ (flag key : Text) (def : ℤ).
      or_given (line.durations flag) (env_duration_or_default parse_duration env key def) in
    let workers =
      or_given (line.ints (codes "worker-count"))
        (env_int_or_default env (codes "FLOW_CONTROLLER_WORKER_COUNT") (pos 1)) in
    record {
      etcd_endpoints = split_comma (
          flag_string line.flags (codes "etcd")
            (env_or_default env (codes "ETCD_ENDPOINTS") (codes "http://127.0.0.1:2379")));
      otlp_endpoint =
          flag_string line.flags (codes "otel-endpoint")
            (env_or_default env (codes "OTEL_EXPORTER_OTLP_ENDPOINT") (codes "localhost:4317"));
      service_name =
          flag_string line.flags (codes "service-name")
            (env_or_default env (codes "OTEL_SERVICE_NAME") (codes "flow-controller"));
      runtime_namespace = flag_string line.flags (codes "runtime-namespace") (
          env_or_default env (codes "FLOW_PIPE_RUNTIME_NAMESPACE")
            (env_or_default env (codes "POD_NAMESPACE") (codes "default")));
      observability_enabled =
          flag_bool line.flags (codes "observability-enabled")
            (env_bool_or_default env (codes "FLOW_OBSERVABILITY_ENABLED") false);
      log_level =
          flag_string line.flags (codes "log-level")
            (env_or_default env (codes "FLOW_LOG_LEVEL") (codes "info"));
      worker_count = one_at_least workers;
      leader_election_enabled =
          flag_bool line.flags (codes "leader-election-enabled")
            (env_bool_or_default env (codes "FLOW_CONTROLLER_LEADER_ELECTION_ENABLED") true);
      leader_election_name = flag_string line.flags (codes "leader-election-name") (
          env_or_default env (codes "FLOW_CONTROLLER_LEADER_ELECTION_NAME")
            (codes "flow-controller"));
      leader_election_namespace = flag_string line.flags (codes "leader-election-namespace") (
          env_or_default env (codes "FLOW_CONTROLLER_LEADER_ELECTION_NAMESPACE")
            (env_or_default env (codes "POD_NAMESPACE") (codes "default")));
      leader_election_lease_duration =
          duration (codes "leader-election-lease-duration")
            (codes "FLOW_CONTROLLER_LEADER_ELECTION_LEASE_DURATION") (seconds 30);
      leader_election_renew_deadline =
          duration (codes "leader-election-renew-deadline")
            (codes "FLOW_CONTROLLER_LEADER_ELECTION_RENEW_DEADLINE") (seconds 20);
      leader_election_retry_period =
          duration (codes "leader-election-retry-period")
            (codes "FLOW_CONTROLLER_LEADER_ELECTION_RETRY_PERIOD") (seconds 5);
    }

-- The number of workers that Run of controller/internal/controller/controller.go starts: the bound is
-- set once more, and the loop counts up to it.
abbrev pub started_workers : ℤ → ℕ
started_workers (pos zero) = 1
started_workers (pos (suc n)) = suc n
started_workers (negsuc n) = 1

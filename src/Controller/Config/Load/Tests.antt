-- ===== src/Controller/Config/Load/Tests.antt =====
-- A configuration that is loaded from a concrete environment.
use flow_pipe.Prelude.{◌≡◌, refl, none, some, [], arith, if◌then◌else◌}
use flow_pipe.Text.{codes, text_eq}
use flow_pipe.Text.Decimal.{format_uint, parse_uint}
use flow_pipe.Text.Integer.{negsuc, atoi}
use flow_pipe.Api.Config.Load.{Env}
use flow_pipe.Controller.Config.Load.{CommandLine, load, started_workers}
use flow_pipe.Controller.Config.Load.Workers.{started_workers-load}

abbrev env : Env
env key = if text_eq key (codes "FLOW_CONTROLLER_WORKER_COUNT") then codes "12" else []

abbrev no_flags : CommandLine
no_flags = record {
  flags = record { strings = λ n. none; bools = λ n. none };
  ints = λ n. none;
  durations = λ n. none;
}

minus_two : atoi (codes "-2") ≡ some (negsuc 1)
unfolding atoi parse_uint
minus_two = refl

set-workers : env (codes "FLOW_CONTROLLER_WORKER_COUNT") ≡ format_uint 12
unfolding format_uint text_eq
set-workers = refl

started_workers-load_example : started_workers (load (λ s. none) env no_flags).worker_count ≡ 12
started_workers-load_example =
    started_workers-load (λ s. none) env no_flags 12 refl set-workers (omega arith)

-- ===== src/Controller/Config/Load/Workers.antt =====
-- From the environment to the workers that Run starts.
use flow_pipe.Prelude.{
  ℕ, zero, suc, ◌<◌, ◌≡◌, refl, ap, ◌∙◌, Option, none, some, [], ◌∷◌, arith, ◌==◌, if◌then◌else◌,
}
use flow_pipe.Text.{Text, codes}
use flow_pipe.Text.FilePath.{is_empty}
use flow_pipe.Text.Decimal.{format_uint, parse_uint, parse_uint-format_uint}
use flow_pipe.Text.Integer.{ℤ, pos, negsuc, int_limit, atoi, atoi-parse_uint}
use flow_pipe.Api.Config.Load.{Env, or_given}
use flow_pipe.Controller.Config.Load.{CommandLine, one_at_least, load, started_workers}

started-one_at_least : (n : ℤ) → started_workers (one_at_least n) ≡ started_workers n
started-one_at_least (pos zero) = refl
started-one_at_least (pos (suc n)) = refl
started-one_at_least (negsuc n) = refl

started-pos : (n : ℕ) → started_workers (pos n) ≡ (if n == 0 then 1 else n)
started-pos zero = refl
started-pos (suc n) = ground arith

read_int :
    (v : Text) (n : ℕ) (def : ℤ)
    → parse_uint v ≡ some n
    → n < int_limit
    → (if is_empty v then def else or_given (atoi v) def) ≡ pos n
unfolding parse_uint
read_int [] n def h b = ground arith
read_int (c ∷ v) n def h b = ap (λ o. or_given o def) (atoi-parse_uint (c ∷ v) n h b)

module _ (parse_duration : Text → Option ℤ) (env : Env) (line : CommandLine) where
  -- Where --worker-count is not given and FLOW_CONTROLLER_WORKER_COUNT is a number below 2 ^ 63 in
  -- decimal, Run, with what Load returns, starts that many workers, and one for zero.
  pub started_workers-load :
      (n : ℕ)
      → line.ints (codes "worker-count") ≡ none
      → env (codes "FLOW_CONTROLLER_WORKER_COUNT") ≡ format_uint n
      → n < int_limit
      → started_workers (load parse_duration env line).worker_count ≡ (if n == 0 then 1 else n)
  unfolding load
  started_workers-load n none_given set bound =
      started-one_at_least _
      ∙ rw (none_given, set)
          (ap started_workers
            (read_int (format_uint n) n (pos 1) (parse_uint-format_uint n (omega arith)) bound))
      ∙ started-pos n

-- ===== src/Api/Config/Load/Tests.antt =====
-- A run of the guard behind a loaded configuration.
use flow_pipe.Prelude.{ℕ, ◌≡◌, refl, true, false, none, [], ◌∷◌, arith, ◌⊎◌, suc, if◌then◌else◌}
use flow_pipe.Text.{codes, text_eq, cut_prefix}
use flow_pipe.Text.Spaces.{trim_space, trim_left, trim_right, cut_all, cut_any}
use flow_pipe.Remote.{Remote, ok, err, quiet, served}
use flow_pipe.Api.Auth.{
  RpcError, missing_api_key, invalid_api_key, unauthorized, first_bearer_token, parse_bearer_token,
}
use flow_pipe.Api.Server.{Machine, unary, serve_grpc, serve_http}
use flow_pipe.Api.Config.Load.{Env, Flags, load, split_comma, split_at_comma, drop_empty}
use flow_pipe.Api.Config.Load.Secured.{loaded_key_guards}

abbrev env : Env
unfolding text_eq
env key =
    if text_eq key (codes "FLOW_AUTH_ENABLED")
    then codes "Yes"
    else if text_eq key (codes "FLOW_API_KEY")
    then codes "s3cret"
    else []

abbrev no_flags : Flags
no_flags = record { strings = λ n. none; bools = λ n. none }

abbrev count_call : Remote ℕ Unit Unit
count_call w = (ok tt, record { server = suc w.server; net = w.net })

abbrev machine : Machine
machine = record {
  listens = λ sockets addr. true;
  key_pair = λ cert key. false;
  client_credentials = λ cert name. false;
  registers = λ addr. true;
  forward = λ header. header ∷ [];
}

two_endpoints : split_comma (codes "a:1,,b:2,") ≡ codes "a:1" ∷ codes "b:2" ∷ []
unfolding split_comma split_at_comma drop_empty
two_endpoints = refl

loaded_key_guards_example :
    ((e : RpcError (Unit {0})) × (serve_grpc
          (load env no_flags)
          (codes "Bearer guess" ∷ [])
          (unary count_call)
          (quiet 0)
        ≡ (err e, quiet 0))
      × ((e ≡ missing_api_key) ⊎ (e ≡ invalid_api_key)))
    × (serve_http machine (load env no_flags) served (codes "s3cret") count_call (quiet 0)
        ≡ (unauthorized, quiet 0))
unfolding env text_eq first_bearer_token parse_bearer_token trim_space trim_left trim_right cut_all
    cut_any cut_prefix
loaded_key_guards_example =
    loaded_key_guards machine env no_flags served (codes "Bearer guess" ∷ []) (codes "s3cret")
      count_call (quiet 0) refl refl refl (λ e. ground arith) (λ e. ground arith)

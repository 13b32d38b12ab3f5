-- ===== src/Api/Auth/Tests.antt =====
-- Runs of the authentication, and the theorems at them.
use flow_pipe.Prelude.{ℕ, ◌≡◌, refl, true, false, [], ◌∷◌, arith, ◌⊎◌, suc}
use flow_pipe.Text.{Text, codes, cut_prefix}
use flow_pipe.Text.Spaces.{trim_space, trim_left, trim_right, cut_all, cut_any}
use flow_pipe.Remote.{Remote, ok, err, quiet}
use flow_pipe.Api.Config.{Config}
use flow_pipe.Api.Auth.{
  RpcError, missing_api_key, invalid_api_key, unauthorized, api_key_unary_interceptor,
  api_key_http_middleware, ensure_api_key_configured, parse_bearer_token,
}
use flow_pipe.Api.Auth.Keys.{padded_key_locks_out}

abbrev with_key : Text → Config
with_key key = record {
  grpc_addr = codes ":9090";
  http_addr = codes ":8080";
  etcd_endpoints = [];
  otlp_endpoint = [];
  service_name = codes "flow-api";
  observability_enabled = false;
  log_level = codes "info";
  auth_enabled = true;
  api_key = key;
  http_tls_enabled = false;
  http_tls_cert_file = [];
  http_tls_key_file = [];
  grpc_tls_enabled = false;
  grpc_tls_cert_file = [];
  grpc_tls_key_file = [];
  grpc_tls_server_name = [];
}

-- A handler that counts its calls.
abbrev count_call : Remote ℕ Unit Unit
count_call w = (ok tt, record { server = suc w.server; net = w.net })

abbrev count_next : ℕ → Unit {0} × ℕ
count_next n = (tt, suc n)

-- The word is read in any case, and the blanks around the token go.
odd_header : parse_bearer_token (codes " bEaReR   s3cret\t") ≡ codes "s3cret"
unfolding parse_bearer_token trim_space trim_left trim_right cut_all cut_any cut_prefix
odd_header = refl

-- The key passes the check at the start.
padded_key_passes : ensure_api_key_configured (with_key (codes "s3cret ")) ≡ ok tt
unfolding ensure_api_key_configured trim_space trim_left trim_right cut_all cut_any cut_prefix
padded_key_passes = refl

padded_key_locks_out_example :
    ((e : RpcError (Unit {0})) × (api_key_unary_interceptor
          (with_key (codes "s3cret "))
          (codes "Bearer s3cret " ∷ [])
          count_call
          (quiet 0)
        ≡ (err e, quiet 0))
      × ((e ≡ missing_api_key) ⊎ (e ≡ invalid_api_key)))
    × (api_key_http_middleware (with_key (codes "s3cret ")) (codes "Bearer s3cret ") count_next 0
        ≡ (unauthorized, 0))
unfolding trim_space trim_left trim_right cut_all cut_any cut_prefix
padded_key_locks_out_example =
    padded_key_locks_out (with_key (codes "s3cret ")) (codes "Bearer s3cret " ∷ [])
      (codes "Bearer s3cret ") count_call count_next (quiet 0) refl (λ e. ground arith)

-- ===== src/Api/Server/Tests.antt =====
-- A server that starts, one that does not, and the theorem at the first.
use flow_pipe.Prelude.{ℕ, ◌≡◌, refl, true, false, ◌⊎◌, [], ◌∷◌, suc, not, if◌then◌else◌}
use flow_pipe.Text.{codes, cut_prefix}
use flow_pipe.Text.FilePath.{is_empty}
use flow_pipe.Text.Names.{contains}
use flow_pipe.Text.Spaces.{trim_space, trim_left, trim_right, cut_all, cut_any}
use flow_pipe.Remote.{Remote, ok, err, served, quiet}
use flow_pipe.Api.Config.{Config}
use flow_pipe.Api.Auth.{
  ensure_api_key_configured, ensure_grpc_server_tls_configured, ensure_http_server_tls_configured,
  http_cert_empty, first_bearer_token,
}
use flow_pipe.Api.Auth.{handled}
use flow_pipe.Api.Server.{
  reflection, serve_grpc, Machine, Server, badly_configured, new_grpc_server, new_http_server,
  new_server,
}
use flow_pipe.Api.Server.Fronts.{Refused, Admitted, started_fronts_agree}

abbrev cfg : Config
cfg = record {
  grpc_addr = codes ":9090";
  http_addr = codes ":8080";
  etcd_endpoints = [];
  otlp_endpoint = [];
  service_name = codes "flow-api";
  observability_enabled = false;
  log_level = codes "info";
  auth_enabled = true;
  api_key = codes "s3cret";
  http_tls_enabled = false;
  http_tls_cert_file = [];
  http_tls_key_file = [];
  grpc_tls_enabled = false;
  grpc_tls_cert_file = [];
  grpc_tls_key_file = [];
  grpc_tls_server_name = [];
}

-- Any address is free that the process does not have itself; no certificate can be read.
abbrev machine : Machine
machine = record {
  listens = λ sockets addr. not (contains sockets addr);
  key_pair = λ cert key. false;
  client_credentials = λ cert name. false;
  registers = λ addr. true;
  forward = λ header. if is_empty header then [] else header ∷ [];
}

abbrev server : Server
server = record {
  grpc = record { addr = codes ":9090"; reflects = true; secured = false };
  http = record {
    addr = codes ":8080";
    tls_enabled = false;
    tls_cert_file = [];
    tls_key_file = [];
  };
}

started : new_server machine cfg [] ≡ (ok server, codes ":9090" ∷ [])
unfolding new_server new_grpc_server new_http_server ensure_api_key_configured
    ensure_grpc_server_tls_configured ensure_http_server_tls_configured trim_space trim_left
    trim_right cut_all cut_any cut_prefix
started = refl

-- The gRPC server's socket is open when the HTTP server is found to have no certificate.
socket_left :
    new_server machine (record cfg { http_tls_enabled = true }) []
    ≡ (err (badly_configured http_cert_empty), codes ":9090" ∷ [])
unfolding new_server new_grpc_server new_http_server ensure_api_key_configured
    ensure_grpc_server_tls_configured ensure_http_server_tls_configured trim_space trim_left
    trim_right cut_all cut_any cut_prefix
socket_left = refl

-- A method that counts its calls.
abbrev count_call : Remote ℕ Unit Unit
count_call w = (ok tt, record { server = suc w.server; net = w.net })

started_fronts_agree_example :
    (Refused machine cfg served (codes "Bearer s3cret") count_call (quiet 0)
      ⊎ (Admitted machine cfg served (codes "Bearer s3cret") count_call (quiet 0)
          × ((true ≡ false)
              ⊎ ((first_bearer_token (codes "Bearer s3cret" ∷ []) ≡ codes "s3cret")
                  × (is_empty (trim_space (codes "s3cret")) ≡ false)))))
    × (serve_grpc cfg [] (reflection count_call) (quiet 0) ≡ handled (count_call (quiet 0)))
started_fronts_agree_example =
    started_fronts_agree machine cfg [] _ server served (codes "Bearer s3cret") count_call
      count_call [] (quiet 0) started refl

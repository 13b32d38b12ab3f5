-- ===== src/Api/Config.antt =====
-- The API server's configuration: Config of api/internal/config/config.go.
pub mod Load
use flow_pipe.Prelude.{Bool, List}
use flow_pipe.Text.{Text}

pub record Config : Type 0 where
  pub grpc_addr : Text
  pub http_addr : Text
  pub etcd_endpoints : List Text
  pub otlp_endpoint : Text
  pub service_name : Text
  pub observability_enabled : Bool
  pub log_level : Text
  pub auth_enabled : Bool
  pub api_key : Text
  pub http_tls_enabled : Bool
  pub http_tls_cert_file : Text
  pub http_tls_key_file : Text
  pub grpc_tls_enabled : Bool
  pub grpc_tls_cert_file : Text
  pub grpc_tls_key_file : Text
  pub grpc_tls_server_name : Text

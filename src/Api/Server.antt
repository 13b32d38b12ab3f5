-- ===== src/Api/Server.antt =====
-- The API server: api/internal/server/server.go, grpc.go and http.go. Both servers stand in front of the
-- same methods; the HTTP server reaches them through the gateway, a client of the gRPC server. What
-- is outside, the sockets, TLS and the gateway's library, is a parameter. Metrics and tracing, which
-- the interceptors and the middleware add, are left out.
pub mod Fronts
mod Tests
use flow_pipe.Prelude.{Bool, true, false, ◌&&◌, not, List, [], ◌∷◌, if◌then◌else◌}
use flow_pipe.Text.{Text}
use flow_pipe.Remote.{Result, ok, err, Outcome, served, refused, lost, World, Remote}
use flow_pipe.Api.Config.{Config}
use flow_pipe.Api.Auth.{
  ConfigError, RpcError, handled, HttpAnswer, ensure_api_key_configured,
  ensure_grpc_server_tls_configured, ensure_http_server_tls_configured, api_key_unary_interceptor,
  api_key_http_middleware,
}

-- net.Listen, beside the addresses that are taken; the key pair of the gRPC server, and the
-- credentials of a client of it, from their files; the registration of the gateway's handlers; the
-- values of "authorization" in the metadata that the gateway makes of the header Authorization.
pub record Machine : Type 0 where
  pub listens : List Text → Text → Bool
  pub key_pair : Text → Text → Bool
  pub client_credentials : Text → Text → Bool
  pub registers : Text → Bool
  pub forward : Text → List Text

pub data StartError : Type 0 where
  badly_configured : ConfigError → StartError
  listen_failed : Text → StartError
  grpc_tls_failed : StartError
  gateway_failed : StartError

-- `reflects` is whether reflection.Register has added the reflection service.
pub record GrpcServer : Type 0 where
  pub addr : Text
  pub reflects : Bool
  pub secured : Bool

pub record HttpServer : Type 0 where
  pub addr : Text
  pub tls_enabled : Bool
  pub tls_cert_file : Text
  pub tls_key_file : Text

pub record Server : Type 0 where
  pub grpc : GrpcServer
  pub http : HttpServer

module _ (M : Machine) where
  -- NewGRPCServer behind its checks. The sockets are the addresses that the process listens on; one
  -- stays open where the key pair cannot be loaded.
  abbrev pub open_grpc_server : Config → List Text → Result StartError GrpcServer × List Text
  open_grpc_server cfg sockets =
      if not (M.listens sockets cfg.grpc_addr)
      then (err (listen_failed cfg.grpc_addr), sockets)
      else if cfg.grpc_tls_enabled && not (M.key_pair cfg.grpc_tls_cert_file cfg.grpc_tls_key_file)
      then (err grpc_tls_failed, cfg.grpc_addr ∷ sockets)
      else (
        ok (record { addr = cfg.grpc_addr; reflects = true; secured = cfg.grpc_tls_enabled }),
        cfg.grpc_addr ∷ sockets,
      )

  abbrev pub with_checks :
      {A : Type 0}
      → Result ConfigError Unit
      → Result ConfigError Unit
      → List Text
      → Result StartError A × List Text
      → Result StartError A × List Text
  with_checks (err e) tls sockets start = (err (badly_configured e), sockets)
  with_checks (ok done) (err e) sockets start = (err (badly_configured e), sockets)
  with_checks (ok done) (ok done_too) sockets start = start

  -- NewGRPCServer
  unfoldable pub new_grpc_server : Config → List Text → Result StartError GrpcServer × List Text
  unfolding ensure_api_key_configured ensure_grpc_server_tls_configured
  new_grpc_server cfg sockets =
      with_checks (ensure_api_key_configured cfg) (ensure_grpc_server_tls_configured cfg) sockets
        (open_grpc_server cfg sockets)

  -- NewHTTPServer behind its checks. It opens no socket.
  abbrev pub open_http_server : Config → List Text → Result StartError HttpServer × List Text
  open_http_server cfg sockets =
      if cfg.grpc_tls_enabled
        && not (M.client_credentials cfg.grpc_tls_cert_file cfg.grpc_tls_server_name)
      then (err grpc_tls_failed, sockets)
      else if not (M.registers cfg.grpc_addr)
      then (err gateway_failed, sockets)
      else (
        ok (record {
          addr = cfg.http_addr;
          tls_enabled = cfg.http_tls_enabled;
          tls_cert_file = cfg.http_tls_cert_file;
          tls_key_file = cfg.http_tls_key_file;
        }),
        sockets,
      )

  -- NewHTTPServer
  unfoldable pub new_http_server : Config → List Text → Result StartError HttpServer × List Text
  unfolding ensure_api_key_configured ensure_http_server_tls_configured
  new_http_server cfg sockets =
      with_checks (ensure_api_key_configured cfg) (ensure_http_server_tls_configured cfg) sockets
        (open_http_server cfg sockets)

  abbrev pub both_servers :
      GrpcServer → Result StartError HttpServer × List Text → Result StartError Server × List Text
  both_servers g (err e, sockets) = (err e, sockets)
  both_servers g (ok h, sockets) = (ok (record { grpc = g; http = h }), sockets)

  abbrev pub with_http :
      Config → Result StartError GrpcServer × List Text → Result StartError Server × List Text
  with_http cfg (err e, sockets) = (err e, sockets)
  with_http cfg (ok g, sockets) = both_servers g (new_http_server cfg sockets)

  -- New: the gRPC server's socket stays open where the HTTP server cannot be made.
  unfoldable pub new_server : Config → List Text → Result StartError Server × List Text
  unfolding new_grpc_server new_http_server
  new_server cfg sockets = with_http cfg (new_grpc_server cfg sockets)

-- What the gateway can meet: the gRPC server's error, or a call that fails on the way.
pub data GatewayError (E : Type 0) : Type 0 where
  answered_with : RpcError E → GatewayError E
  unreachable : GatewayError E

-- A call of the gRPC server: of a method of the two services, all of which are unary; or of the stream
-- of the reflection service, whose code is the library's.
pub data GrpcCall (S E A : Type 0) : Type 0 where
  unary reflection : Remote S E A → GrpcCall S E A

module _ {S E A : Type 0} where
  -- A call of the gRPC server, for the values of "authorization" in the metadata. The chain of
  -- interceptors is one of unary interceptors: a stream goes through none.
  unfoldable pub serve_grpc : Config → List Text → GrpcCall S E A → Remote S (RpcError E) A
  unfolding api_key_unary_interceptor
  serve_grpc cfg values (unary method) = api_key_unary_interceptor cfg values method
  serve_grpc cfg values (reflection stream) = λ w. handled (stream w)

  abbrev pub told : Result (RpcError E) A × World S → Result (GatewayError E) A × World S
  told (ok a, w) = (ok a, w)
  told (err e, w) = (err (answered_with e), w)

  -- The gateway's call of the gRPC server.
  abbrev pub gateway : Outcome → Remote S (RpcError E) A → Remote S (GatewayError E) A
  gateway served m w = told (m w)
  gateway refused m w = (err unreachable, w)
  gateway lost m w = (err unreachable, (m w).1)

  -- A request to the HTTP server for that method, with its header Authorization.
  unfoldable pub serve_http :
      Machine
      → Config
      → Outcome
      → Text
      → Remote S E A
      → World S
      → HttpAnswer (Result (GatewayError E) A) × World S
  unfolding api_key_http_middleware serve_grpc
  serve_http M cfg link header method =
      api_key_http_middleware cfg header
        (gateway link (serve_grpc cfg (M.forward header) (unary method)))

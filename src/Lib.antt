-- ===== src/Lib.antt =====
-- The control plane of flow-pipe.
--
-- A flow is a graph of stages that a C++ runtime executes. Its spec is kept in etcd, one key for each
-- version, with a pointer to the active version. The API server (api/) serves requests on flows out of
-- etcd; the controller (controller/) reads the active specs and keeps, in Kubernetes, a config map with
-- the rendered spec and a workload that runs it.
--
--   Prelude       the names that all modules share, Boolean tests and lists over the native numbers.
--   Text          Go strings as lists of byte codes. Text/Decimal: strconv's FormatUint and ParseUint;
--                 Text/FilePath: path.Clean, Join, Dir and Base; Text/Order: sort.Strings;
--                 Text/Spaces: strings.TrimSpace; Text/Integer: int and strconv.Atoi.
--   Dict          Go's maps from strings to strings.
--   Proto         the messages of proto/flowpipe/v1/flow.proto, with the fields that the code uses.
--   Remote        calls to a server over a network that may refuse a request or lose its reply. A
--                 `World` is the server's state and the outcomes of the calls to come; where the list of
--                 outcomes ends, all calls are served. Remote/Laws: what a block of calls keeps; Remote/Gives:
--                 what one that succeeds leaves; Remote/Succeeds: one that fails in no call.
--   Etcd, Backend the interface of go.etcd.io/etcd/client/v3 and of the encodings of specs, statuses
--                 and schemas (protojson, proto, encoding/json), and the store's single calls.
--                 Etcd/Table is an instance.
--   Api/Keys      the keys of flows, api/internal/store/etcd.go (rootPrefix, flowPrefix, activeKey,
--                 versionSpecKey, statusKey) and keys.go (Api/Keys/Formatted).
--   Api/Flows     the flow methods of EtcdStore in api/internal/store/etcd.go: create_flow is
--                 CreateFlow, and so on; createNewVersion is create_new_version, in three parts
--                 (next_version and prepare_version, unchanged, commit_version), so that two writers can
--                 be interleaved between the read and the transaction.
--   Api/Service   FlowServer of api/internal/service/flow_service.go: one request, and a session.
--                 Api/Service/Catalog: an abstract specification, a map from names to versions.
--   Api/Schemas   api/internal/store/etcd_schema_registry.go: create_schema is CreateSchema, and so on;
--                 createSchemaVersion is create_schema_version with next_schema_version,
--                 schema_unchanged and commit_schema.
--   Api/Registry  SchemaRegistryServer of api/internal/service/schema_registry_service.go.
--   Api/Config    Config of api/internal/config/config.go; Api/Config/Load: Load, with env.go and
--                 util.go.
--   Api/Auth      api/internal/server/auth.go: apiKeyUnaryInterceptor is api_key_unary_interceptor,
--                 apiKeyHTTPMiddleware api_key_http_middleware, parseBearerToken parse_bearer_token.
--   Api/Server    New of api/internal/server/server.go, with NewGRPCServer and NewHTTPServer of grpc.go
--                 and http.go, and the way of a request through either server; a stream of the
--                 reflection service goes through no interceptor.
--   Controller/Kube     the Kubernetes objects, and the API server of k8s.io/client-go as an interface
--                 (find, put, remove with their laws). Controller/Shelves is an instance.
--   Controller/Runtime  controller/internal/controller/runtime.go: ensure_runtime is ensureRuntime,
--                 apply_deployment applyDeployment, and so on, delete_runtime_resources
--                 deleteRuntimeResources; Runtime/Template has the pure functions. What applyDeployment
--                 and its siblings do last (get, then create or update) is one definition,
--                 create_or_update.
--   Controller/Flows    controller/internal/store/etcd.go: ListFlows, GetActiveFlow, UpdateStatus,
--                       buildWatchEvent.
--   Controller/RateLimiting, Controller/Queue  the queue of k8s.io/client-go/util/workqueue as an
--                       interface, and MemoryQueue of controller/internal/controller/workqueue_memory.go.
--   Controller/Reconcile  reconcile of controller/internal/controller/reconcile.go.
--   Controller/Seed     enqueueExisting of controller/internal/controller/watch.go.
--   Controller/System   the writers of flows, the watch (WatchFlows of the store, the loop of runWatch) and
--                       the workers as a step relation. An event whose flow cannot be fetched is
--                       dropped, the watch announces only what changes while it is open, and it may
--                       end. The ghost fields `missed` and `settled` record what the watch has
--                       missed and what a successful reconciliation had read.
--                       System/Deployed: the way of one update, from UpdateFlow to the workload.
--   Controller/Leading  Run of controller/internal/controller/controller.go, and runWithLeaderElection of
--                       controller/cmd/flow-controller/main.go, as moves of the process.
--   Controller/Config   Config and Load of controller/internal/config, and how many workers Run starts.
--   Specs/Validate      Validate of pkg/flow/validate/validate.go; Specs/Validate/Rules: what a valid
--                       spec is.
--   Specs/Normalize     Normalize of pkg/flow/normalize/normalize.go.
--   Specs/Diff          Diff of pkg/flow/diff/diff.go.
--   Cli           the commands of cli/cmd/flowctl, each a call of the API server behind the
--                 authentication: Cli is api.go (dialAPI is dial_api), Cli/Flags root.go, Cli/Schemas
--                 schema.go, Cli/Flows the other commands (submitCmd is submit, and so on), and
--                 Cli/Loader cli/internal/loader/load.go.
--
-- State and errors. A method is a function of a `World`; an error ends a block as the early returns of
-- the source do, with the calls made so far in effect. Error values have no texts. What a method returns
-- beside an error is left out. The server's steps are atomic; the interleavings of clients
-- are those of whole calls, and a worker's round is two steps, the read of the flow and the rest.
--
-- Bounds and fuel. Versions are uint64: a stored version is a number below 2 ^ 64, and the next version
-- wraps around. FormatUint divides by ten with as much fuel as the number has units and one more, which
-- is more than its digits. TrimSpace cuts a byte at least in each round, and has a round for each byte.
-- Requests of memory are an int64's bits, 2 ^ 64. All other loops go by the structure of a list.
--
-- Parameters, which are code that is not in the repository: etcd, protojson, the conversion to YAML,
-- SHA-256, time.ParseDuration, the Kubernetes API server and client-go's queue. What is assumed of them
-- stands in Etcd, Controller/Kube, Controller/Runtime (Rendering) and Controller/RateLimiting. The
-- surroundings of a command (files, decoders, TLS, connections) are a record in Cli, of which nothing
-- is assumed.
--
-- Not modelled: the mutation of a caller's message by the store (the version and the name are stamped
-- on a copy) and by Normalize; logging, tracing and metrics; contexts and deadlines; how client-go
-- elects a leader; the fingerprint and the codecs of pkg/flow; the parsing of flags and the
-- printing of replies; TLS; generated code; the runtime in C++.
pub mod Prelude
pub mod Text
pub mod Dict
pub mod Proto
pub mod Remote
pub mod Etcd
pub mod Backend
pub mod Api
pub mod Controller
pub mod Specs
pub mod Cli

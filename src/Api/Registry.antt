-- ===== src/Api/Registry.antt =====
-- The schema registry service: SchemaRegistryServer of
-- api/internal/service/schema_registry_service.go, whose methods hand the request to the store. Its
-- debug logging is left out. One record stands for the message and for the store's struct, which have
-- the same fields.
pub mod Apart
mod Tests
use flow_pipe.Prelude.{ℕ, Option, none, some, List, [], ◌∷◌}
use flow_pipe.Text.{Text}
use flow_pipe.Proto.{SchemaDefinition}
use flow_pipe.Remote.{pure, ◌>>=◌}
use flow_pipe.Backend.{Backend, Store}
use flow_pipe.Api.Schemas

pub data SchemaRequest : Type 0 where
  create_schema : Option SchemaDefinition → SchemaRequest
  get_schema : Text → ℕ → SchemaRequest
  list_schema_versions : Text → SchemaRequest
  delete_schema : Text → SchemaRequest

pub data SchemaResponse : Type 0 where
  schema : SchemaDefinition → SchemaResponse
  schemas : List SchemaDefinition → SchemaResponse
  empty : SchemaResponse

abbrev pub schema_to_model : Option SchemaDefinition → Option SchemaDefinition
schema_to_model none = none
schema_to_model (some s) = some (record {
  schema_id = s.schema_id;
  version = s.version;
  format = s.format;
  raw_schema = s.raw_schema;
})

abbrev pub model_to_schema : SchemaDefinition → SchemaDefinition
model_to_schema s = record {
  schema_id = s.schema_id;
  version = s.version;
  format = s.format;
  raw_schema = s.raw_schema;
}

abbrev pub models_to_schemas : List SchemaDefinition → List SchemaDefinition
models_to_schemas [] = []
models_to_schemas (s ∷ ss) = model_to_schema s ∷ models_to_schemas ss

module _ (B : Backend) where
  unfoldable pub serve_schema : SchemaRequest → Store B SchemaResponse
  serve_schema (create_schema s) = do
    created ← Schemas.create_schema B (schema_to_model s)
    pure (schema (model_to_schema created))
  serve_schema (get_schema id version) = do
    s ← Schemas.get_schema B id version
    pure (schema (model_to_schema s))
  serve_schema (list_schema_versions id) = do
    ss ← Schemas.list_schema_versions B id
    pure (schemas (models_to_schemas ss))
  serve_schema (delete_schema id) = Schemas.delete_schema B id >>= λ _. pure empty

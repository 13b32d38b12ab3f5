-- ===== src/Api/Schemas.antt =====
-- The schema registry in etcd: EtcdStore of api/internal/store/etcd_schema_registry.go, one definition
-- for each method. A method's schema argument is a value here; the source also writes the version into
-- the caller's struct. sort.Slice is a sort by insertion: only schemas of one version, which no
-- CreateSchema leaves behind, could come in another order.
pub mod Layout
pub mod Created
pub mod Listing
pub mod Versions
use flow_pipe.Prelude.{
  ℕ, ◌+◌, ◌%◌, ◌^◌, Bool, true, false, Option, none, some, List, [], ◌∷◌, ◌++◌, ltb, ◌==◌,
  if◌then◌else◌,
}
use flow_pipe.Text.{Text, codes}
use flow_pipe.Text.Decimal.{format_uint, parse_uint, u64_limit}
use flow_pipe.Text.FilePath.{is_empty, path_join}
use flow_pipe.Proto.{SchemaDefinition, SchemaFormat}
use flow_pipe.Remote.{Result, ok, err, pure, raise, lift, or_else, ◌>>=◌}
use flow_pipe.Etcd.{Compare, is_absent, has_value}
use flow_pipe.Backend.{
  Backend, Store, StoreError, schema_is_nil, schema_id_required, schema_format_required,
  schema_payload_required, invalid_active_version, marshal_failed, unmarshal_failed,
  modified_concurrently, schema_not_found, schema_version_missing, get_key, get_keys, delete_keys,
  commit,
}

-- schemaRootPrefix
abbrev pub schema_root_prefix : Text
schema_root_prefix = codes "/flowpipe/schemas"

unfoldable pub schema_prefix : Text → Text
schema_prefix id = path_join (schema_root_prefix ∷ id ∷ [])

unfoldable pub schema_active_key : Text → Text
unfolding schema_prefix
schema_active_key id = path_join (schema_prefix id ∷ codes "active" ∷ [])

unfoldable pub schema_version_key : Text → ℕ → Text
unfolding schema_prefix
schema_version_key id version =
    path_join (schema_prefix id ∷ codes "versions" ∷ format_uint version ∷ [])

unfoldable pub schema_versions_prefix : Text → Text
unfolding schema_prefix
schema_versions_prefix id = path_join (schema_prefix id ∷ codes "versions" ∷ []) ++ codes "/"

-- uint32(v)
abbrev pub uint32 : ℕ → ℕ
uint32 v = v % 2 ^ 32

-- nextVersion, as a uint64.
unfoldable pub next_schema_version : Option Text → Result StoreError ℕ
next_schema_version none = ok 1
next_schema_version (some active) = elim (parse_uint active) [
  | none ↦ err invalid_active_version
  | some prev ↦ ok ((prev + 1) % u64_limit)
]

unfoldable pub schema_unchanged : Text → Option Text → Compare
schema_unchanged id none = is_absent (schema_active_key id)
schema_unchanged id (some active) = has_value (schema_active_key id) active

abbrev pub is_unspecified : SchemaFormat → Bool
is_unspecified SchemaFormat.unspecified = true
is_unspecified f = false

unfoldable pub insert_version : SchemaDefinition → List SchemaDefinition → List SchemaDefinition
insert_version s [] = s ∷ []
insert_version s (t ∷ ts) =
    let rest = insert_version s ts in if ltb t.version s.version then t ∷ rest else s ∷ t ∷ ts

unfoldable pub sort_versions : List SchemaDefinition → List SchemaDefinition
sort_versions [] = []
sort_versions (s ∷ ss) = insert_version s (sort_versions ss)

-- The schema with the version that it is stored under.
abbrev pub stamp : ℕ → SchemaDefinition → SchemaDefinition
stamp next schema = record schema { version = uint32 next }

-- The version that GetSchema reads: the active one if none is asked for.
abbrev pub active_schema_version : Text → Option Text → Result StoreError ℕ
active_schema_version id none = err (schema_not_found id)
active_schema_version id (some active) = elim (parse_uint active) [
  | none ↦ err invalid_active_version
  | some v ↦ ok (uint32 v)
]

module _ (B : Backend) where
  -- The transaction of createSchemaVersion, and its result.
  unfoldable pub commit_schema :
      Text → Option Text → ℕ → SchemaDefinition → Text → Store B SchemaDefinition
  commit_schema id active next stamped payload = do
    succeeded ← commit B (schema_unchanged id active) (
        (schema_version_key id (uint32 next), payload)
        ∷ (schema_active_key id, format_uint next)
        ∷ [])
    if succeeded then pure stamped else raise (modified_concurrently id)

  -- createSchemaVersion
  unfoldable pub create_schema_version : Text → SchemaDefinition → Store B SchemaDefinition
  create_schema_version id schema = do
    active ← get_key B (schema_active_key id)
    next ← lift (next_schema_version active)
    payload ← lift (or_else (B.schemas.marshal (stamp next schema)) marshal_failed)
    commit_schema id active next (stamp next schema) payload

  -- CreateSchema
  unfoldable pub create_schema : Option SchemaDefinition → Store B SchemaDefinition
  create_schema none = raise schema_is_nil
  create_schema (some schema) =
      if is_empty schema.schema_id
      then raise schema_id_required
      else if is_unspecified schema.format
      then raise schema_format_required
      else if is_empty schema.raw_schema
      then raise schema_payload_required
      else create_schema_version schema.schema_id schema

  unfoldable pub choose_version : Text → ℕ → Store B ℕ
  choose_version id version =
      if version == 0
      then (get_key B (schema_active_key id) >>= λ found. lift (active_schema_version id found))
      else pure version

  unfoldable pub read_schema : Text → ℕ → Store B SchemaDefinition
  read_schema id version = do
    stored ← get_key B (schema_version_key id version)
    bytes ← lift (or_else stored (schema_version_missing id version))
    lift (or_else (B.schemas.unmarshal bytes) unmarshal_failed)

  -- GetSchema
  unfoldable pub get_schema : Text → ℕ → Store B SchemaDefinition
  get_schema id version =
      if is_empty id
      then raise schema_id_required
      else choose_version id version >>= λ chosen. read_schema id chosen

  -- The loop of ListSchemaVersions.
  unfoldable pub decode_all : List (Text × Text) → Option (List SchemaDefinition)
  decode_all [] = some []
  decode_all ((key, value) ∷ kvs) = elim (B.schemas.unmarshal value) [
    | none ↦ none
    | some schema ↦ elim (decode_all kvs) [ none ↦ none | some schemas ↦ some (schema ∷ schemas) ]
  ]

  -- ListSchemaVersions
  unfoldable pub list_schema_versions : Text → Store B (List SchemaDefinition)
  list_schema_versions id =
      if is_empty id
      then raise schema_id_required
      else (get_keys B (schema_versions_prefix id) >>= λ kvs.
          lift (or_else (decode_all kvs) unmarshal_failed) >>= λ schemas.
          pure (sort_versions schemas))

  -- DeleteSchema
  unfoldable pub delete_schema : Text → Store B Unit
  delete_schema id =
      if is_empty id then raise schema_id_required else delete_keys B (schema_prefix id)

-- ===== src/Api/Registry/Apart.antt =====
-- Schemas and flows in one etcd: requests with plain identifiers keep to their own keys, and an
-- identifier that is not plain does not.
use flow_pipe.Prelude.{
  ℕ, ◌≡◌, ◌≢◌, refl, ap, ◌∙◌, Bool, true, false, Option, none, some, List, [], ◌∷◌, arith,
  if◌then◌else◌,
}
use flow_pipe.Text.{Text, codes, text_eq, has_prefix}
use flow_pipe.Text.Decimal.{format_uint}
use flow_pipe.Text.FilePath.{path_of, path_join, is_empty}
use flow_pipe.Text.FilePath.Laws.{IsPlain}
use flow_pipe.Proto.{SchemaDefinition}
use flow_pipe.Remote.{World, err, quiet, ◌>>=◌}
use flow_pipe.Remote.Laws.{
  Keeps, Keeps-request, Keeps-bind, Keeps-lift, Keeps-pure, Keeps-raise, Keeps-result, Keeps-if,
}
use flow_pipe.Etcd.{passes, put_all}
use flow_pipe.Backend.{
  Backend, get_key, get_keys, delete_keys, commit, flow_not_found, schema_id_required,
  schema_format_required, schema_payload_required,
}
use flow_pipe.Api.Keys.{active_key}
use flow_pipe.Api.Keys.Layout.{IsKey, under_root, under_root-IsPlain, active_key-IsKey}
use flow_pipe.Api.Flows.{get_flow}
use flow_pipe.Api.Flows.Read.{get_flow-missing}
use flow_pipe.Api.Schemas
use flow_pipe.Api.Schemas.{
  schema_prefix, schema_active_key, schema_version_key, schema_unchanged, is_unspecified, uint32,
  stamp, next_schema_version, commit_schema, create_schema_version, choose_version, read_schema,
}
use flow_pipe.Api.Schemas.Layout.{
  IsPath, other_path, schema_prefix-IsPath, schema_active_key-IsPath, schema_version_key-IsPath,
}
use flow_pipe.Api.Registry.{
  SchemaRequest, create_schema, get_schema, list_schema_versions, delete_schema, serve_schema,
}

schemas≢flows : codes "schemas" ≢ codes "flows"
schemas≢flows e = ground arith

-- `k` is a key of a flow with a plain name.
module _ {k : Text} {ss : List Text} (key : IsKey k ss) where
  flow-IsPath : IsPath k (under_root ss)
  flow-IsPath = record { spells = key.spells; plain = under_root-IsPlain ss key.plain }

  module _ {m : Text} (pm : IsPlain m) where
    active-eq-flow : text_eq (schema_active_key m) k ≡ false
    active-eq-flow = other_path (schema_active_key-IsPath pm) flow-IsPath (λ e. schemas≢flows (cc))

    version-eq-flow : (v : ℕ) → text_eq (schema_version_key m v) k ≡ false
    version-eq-flow v =
        other_path (schema_version_key-IsPath pm v) flow-IsPath (λ e. schemas≢flows (cc))

    prefix-misses : has_prefix (schema_prefix m) k ≡ false
    unfolding has_prefix
    prefix-misses = rw (key.spells, (schema_prefix-IsPath pm).spells) refl

abbrev HasPlainId : Option SchemaDefinition → Type 0
HasPlainId none = Unit
HasPlainId (some schema) = IsPlain schema.schema_id

-- The identifiers of schemas that the request writes are plain path segments.
abbrev pub IsPlainSchemaRequest : SchemaRequest → Type 0
IsPlainSchemaRequest (create_schema schema) = HasPlainId schema
IsPlainSchemaRequest (get_schema id version) = Unit
IsPlainSchemaRequest (list_schema_versions id) = Unit
IsPlainSchemaRequest (delete_schema id) = IsPlain id

module _ (B : Backend) (k : Text) (o : Option Text) where
  abbrev Holds : B.etcd.Server → Type 0
  Holds s = B.etcd.get s k ≡ o

  get_key-Holds : (j : Text) → Keeps Holds (get_key B j)
  unfolding get_key
  get_key-Holds j = Keeps-request _ _ (λ s h. h)

  get_keys-Holds : (p : Text) → Keeps Holds (get_keys B p)
  unfolding get_keys
  get_keys-Holds p = Keeps-request _ _ (λ s h. h)

  module _ {ss : List Text} (key : IsKey k ss) {id : Text} (plain : IsPlain id) where
    commit_schema-Holds :
        (active : Option Text) (next : ℕ) (stamped : SchemaDefinition) (payload : Text)
        → Keeps Holds (commit_schema B id active next stamped payload)
    unfolding commit_schema commit
    commit_schema-Holds active next stamped payload =
        Keeps-bind _ _ (Keeps-request _ _ kept)
          λ succeeded. Keeps-if succeeded _ _ (Keeps-pure _) (Keeps-raise _)
      where
        kept :
            (s : B.etcd.Server)
            → Holds s
            → Holds
                (B.etcd.txn
                  (schema_unchanged id active)
                  ((schema_version_key id (uint32 next), payload)
                    ∷ (schema_active_key id, format_uint next)
                    ∷ [])
                  s).1
        kept s h =
            B.etcd.get-txn _ _ s k ∙ same (passes (B.etcd.get s) (schema_unchanged id active))
          where
            same :
                (b : Bool)
                → (if b
                    then put_all
                        (B.etcd.get s)
                        ((schema_version_key id (uint32 next), payload)
                          ∷ (schema_active_key id, format_uint next)
                          ∷ [])
                        k
                    else B.etcd.get s k)
                  ≡ o
            same true = rw (active-eq-flow key plain, version-eq-flow key plain (uint32 next)) h
            same false = h

    create_schema_version-Holds :
        (schema : SchemaDefinition) → Keeps Holds (create_schema_version B id schema)
    unfolding create_schema_version
    create_schema_version-Holds schema = Keeps-bind _ _ (get_key-Holds _) λ active.
        Keeps-lift _ _ λ next _.
          Keeps-lift _ _ λ payload _. commit_schema-Holds active next (stamp next schema) payload

    delete_schema-Holds : Keeps Holds (Schemas.delete_schema B id)
    unfolding Schemas.delete_schema delete_keys
    delete_schema-Holds = Keeps-if _ _ _ (Keeps-raise _) (
        Keeps-request _ _
          λ s h. B.etcd.get-delete_prefix (schema_prefix id) s k ∙ rw (prefix-misses key plain) h)

  create_schema-Holds :
      {ss : List Text}
      → IsKey k ss
      → (schema : Option SchemaDefinition) → HasPlainId schema
      → Keeps Holds (Schemas.create_schema B schema)
  unfolding Schemas.create_schema
  create_schema-Holds key none h = Keeps-raise _
  create_schema-Holds key (some schema) h =
      Keeps-if (is_empty schema.schema_id) _ _ (Keeps-raise schema_id_required) (
        Keeps-if (is_unspecified schema.format) _ _ (Keeps-raise schema_format_required) (
          Keeps-if (is_empty schema.raw_schema) _ _ (Keeps-raise schema_payload_required)
            (create_schema_version-Holds key h schema)))

  get_schema-Holds : (id : Text) (version : ℕ) → Keeps Holds (Schemas.get_schema B id version)
  unfolding Schemas.get_schema choose_version read_schema
  get_schema-Holds id version = Keeps-if _ _ _ (Keeps-raise _) (
      Keeps-bind _ _
        (Keeps-if _ _ _ (Keeps-bind _ _ (get_key-Holds _) (λ found. Keeps-result _)) (Keeps-pure _))
        λ chosen.
          Keeps-bind _ _ (get_key-Holds _) λ stored. Keeps-lift _ _ (λ bytes _. Keeps-result _))

  list_schema_versions-Holds : (id : Text) → Keeps Holds (Schemas.list_schema_versions B id)
  unfolding Schemas.list_schema_versions
  list_schema_versions-Holds id =
      Keeps-if _ _ _ (Keeps-raise _)
        (Keeps-bind _ _ (get_keys-Holds _) (λ kvs. Keeps-lift _ _ (λ ss _. Keeps-pure _)))

  serve_schema-Holds :
      {ss : List Text}
      → IsKey k ss
      → (r : SchemaRequest) → IsPlainSchemaRequest r
      → Keeps Holds (serve_schema B r)
  unfolding serve_schema
  serve_schema-Holds key (create_schema none) h =
      Keeps-bind _ _ (create_schema-Holds key none h) (λ c. Keeps-pure _)
  serve_schema-Holds key (create_schema (some schema)) h =
      Keeps-bind _ _ (create_schema-Holds key (some schema) h) (λ c. Keeps-pure _)
  serve_schema-Holds key (get_schema id version) h =
      Keeps-bind _ _ (get_schema-Holds id version) (λ c. Keeps-pure _)
  serve_schema-Holds key (list_schema_versions id) h =
      Keeps-bind _ _ (list_schema_versions-Holds id) (λ c. Keeps-pure _)
  serve_schema-Holds key (delete_schema id) h =
      Keeps-bind _ _ (delete_schema-Holds key h) (λ c. Keeps-pure _)

-- path.Join takes a step up from the registry's root.
escapes : schema_prefix (codes "../flows") ≡ codes "/flowpipe/flows"
unfolding schema_prefix path_join
escapes = refl

covers_flows :
    (ss : List Text) → has_prefix (codes "/flowpipe/flows") (path_of (under_root ss)) ≡ true
unfolding has_prefix
covers_flows ss = refl

module _ (B : Backend) where
  -- A request to the schema registry whose identifier, if it writes, is a plain path segment leaves
  -- every key of every flow with a plain name as it was, whatever the network does to the calls.
  pub serve_schema_leaves_flows :
      (r : SchemaRequest) (w : World B.etcd.Server) (k : Text) (ss : List Text)
      → IsPlainSchemaRequest r
      → IsKey k ss
      → B.etcd.get (serve_schema B r w).1.server k ≡ B.etcd.get w.server k
  serve_schema_leaves_flows r w k ss h key =
      (serve_schema-Holds B k (B.etcd.get w.server k) key r h).after w refl

  -- A request to delete the schema "../flows", served without a fault, removes every flow with a
  -- plain name: GetFlow reports "not found" for each.
  pub delete_schema_removes_flows :
      (n : Text) (s : B.etcd.Server)
      → IsPlain n
      → (get_flow B n (serve_schema B (delete_schema (codes "../flows")) (quiet s)).1).0
        ≡ err (flow_not_found n)
  unfolding serve_schema Schemas.delete_schema delete_keys ◌>>=◌
  delete_schema_removes_flows n s pn =
      ap (λ x. x.0)
        (get_flow-missing B n (B.etcd.delete_prefix (schema_prefix (codes "../flows")) s) (
          B.etcd.get-delete_prefix (schema_prefix (codes "../flows")) s (active_key n)
          ∙ rw (escapes, (active_key-IsKey pn).spells, covers_flows (n ∷ codes "active" ∷ []))))

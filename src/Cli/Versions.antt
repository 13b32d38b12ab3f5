-- ===== src/Cli/Versions.antt =====
-- Schema versions on the command line, and a schema that one command creates and another gets.
use flow_pipe.Prelude.{
  ℕ, ◌<◌, ◌≤◌, ◌^◌, ◌≡◌, refl, ap, ap₂, subst, ◌∙◌, true, false, ltb, ◌==◌, none, some,
  if◌then◌else◌, arith, inr,
}
use flow_pipe.Text.{Text}
use flow_pipe.Text.Decimal.{format_uint, parse_uint, parse_uint-format_uint}
use flow_pipe.Text.FilePath.Laws.{IsPlain}
use flow_pipe.Proto.{SchemaFormat, SchemaDefinition}
use flow_pipe.Remote.{Result, ok, err, World, quiet, continue, pure, lift, ◌>>=◌}
use flow_pipe.Backend.{Backend, StoreError}
use flow_pipe.Api.Config.{Config}
use flow_pipe.Api.Schemas.{create_schema, get_schema}
use flow_pipe.Api.Schemas.Created.{create_schema-Wrote, get_schema-create_schema}
use flow_pipe.Api.Auth.{handled}
use flow_pipe.Api.Registry.{SchemaRequest, SchemaResponse, serve_schema}
use flow_pipe.Cli.{Surroundings, RootFlags, CliError, call, answered, schema_version_zero}
use flow_pipe.Cli.Calls.{call-ok, call-again}
use flow_pipe.Cli.Schemas.{
  parse_queue_schema_format, within_uint32, version_of, parse_schema_version, read_schema_payload,
  schema_create, schema_get,
}

parse_schema_version-read :
    (value : Text) (n : ℕ)
    → parse_uint value ≡ some n
    → 1 ≤ n
    → n < 2 ^ 32
    → parse_schema_version value ≡ ok n
unfolding parse_schema_version
parse_schema_version-read value n back low high =
    let small : ltb n (2 ^ 32) ≡ true = ground arith in
    let positive : (n == 0) ≡ false = ground arith in
    ap (λ o. version_of value (within_uint32 o)) back
    ∙ ap (λ b. version_of value (if b then some n else none)) small
    ∙ ap (λ b. if b then err schema_version_zero else ok n) positive

-- A number from 1 to the largest uint32 is read back from its decimal text.
parse_schema_version-format_uint :
    (n : ℕ) → 1 ≤ n → n < 2 ^ 32 → parse_schema_version (format_uint n) ≡ ok n
parse_schema_version-format_uint n low high =
    parse_schema_version-read (format_uint n) n (parse_uint-format_uint n (omega arith)) low high

module _ (M : Surroundings) (B : Backend) (cfg : Config) (settings : RootFlags) (addr : Text) where
  send_schema :
      SchemaRequest → World B.etcd.Server → Result CliError SchemaResponse × World B.etcd.Server
  send_schema r = call M cfg settings addr (serve_schema B r)

  -- A create that succeeded sent a schema, and its later calls go through.
  schema_create-ok :
      (format_flag file id : Text) (v : World B.etcd.Server) {r : SchemaResponse}
      {w : World B.etcd.Server}
      → schema_create M B cfg settings addr format_flag file id v ≡ (ok r, w)
      → (schema : SchemaDefinition) × (schema.schema_id ≡ id)
        × (send_schema (SchemaRequest.create_schema (some schema)) v ≡ (ok r, w))
  unfolding schema_create send_schema ◌>>=◌ lift
  schema_create-ok format_flag file id v {r} {w} =
      cases (parse_queue_schema_format format_flag) (read_schema_payload M file)
    where
      cases :
          (f : Result CliError SchemaFormat) (p : Result CliError Text)
          → continue f
              (λ format. lift p >>= λ payload. call M cfg settings addr (
                serve_schema B (
                  SchemaRequest.create_schema (
                    some (record {
                      schema_id = id;
                      version = 0;
                      format = format;
                      raw_schema = payload;
                    })))))
              v
            ≡ (ok r, w)
          → (schema : SchemaDefinition) × (schema.schema_id ≡ id)
            × (send_schema (SchemaRequest.create_schema (some schema)) v ≡ (ok r, w))
      cases (err x) p e = cc (ap (λ y. y.0) e)
      cases (ok f) (err x) e = cc (ap (λ y. y.0) e)
      cases (ok f) (ok p) e =
          (record { schema_id = id; version = 0; format = f; raw_schema = p }, refl, e)

  serve_schema-created :
      (schema : SchemaDefinition) (v : World B.etcd.Server) {c : SchemaDefinition}
      {w : World B.etcd.Server}
      → serve_schema B (SchemaRequest.create_schema (some schema)) v
        ≡ (ok (SchemaResponse.schema c), w)
      → create_schema B (some schema) v ≡ (ok c, w)
  unfolding serve_schema pure ◌>>=◌
  serve_schema-created schema v {c} {w} = cases (create_schema B (some schema) v)
    where
      cases :
          (x : Result StoreError SchemaDefinition × World B.etcd.Server)
          → continue x.0 (λ k. pure (SchemaResponse.schema k)) x.1
            ≡ (ok (SchemaResponse.schema c), w)
          → x ≡ (ok c, w)
      cases (err e, u) h = cc (ap (λ y. y.0) h)
      cases (ok k, u) h =
          let same : k ≡ c = cc (ap (λ y. y.0) h) in ap₂ (λ d t. (ok d, t)) same (ap (λ y. y.1) h)

  schema_get-sent :
      (id value : Text) (n : ℕ) (w : World B.etcd.Server)
      → parse_schema_version value ≡ ok n
      → schema_get M B cfg settings addr id value w ≡ send_schema (SchemaRequest.get_schema id n) w
  unfolding schema_get send_schema ◌>>=◌ lift
  schema_get-sent id value n w e =
      ap
        (λ (p : Result CliError ℕ).
          continue p
            (λ version.
              call M cfg settings addr (serve_schema B (SchemaRequest.get_schema id version)))
            w)
        e

  serve_schema-got :
      (id : Text) (n : ℕ) (w : World B.etcd.Server) (c : SchemaDefinition)
      → get_schema B id n w ≡ (ok c, w)
      → serve_schema B (SchemaRequest.get_schema id n) w ≡ (ok (SchemaResponse.schema c), w)
  unfolding serve_schema pure ◌>>=◌
  serve_schema-got id n w c e =
      ap
        (λ (x : Result StoreError SchemaDefinition × World B.etcd.Server).
          continue x.0 (λ k. pure (SchemaResponse.schema k)) x.1)
        e

  version-bound :
      (schema : SchemaDefinition) (s : B.etcd.Server) (c : SchemaDefinition)
      (w : World B.etcd.Server)
      → create_schema B (some schema) (quiet s) ≡ (ok c, w)
      → c.version < 2 ^ 32
  version-bound schema s c w e =
      let x = create_schema-Wrote B schema s e in rw x.result (omega arith)

  -- If "schema create" succeeds for a plain identifier and prints a version above 0, with etcd answering
  -- every request, "schema get" right after it, with that identifier and that version as a decimal number,
  -- prints the same schema and changes nothing.
  pub schema_get-schema_create :
      (format_flag file id : Text) (s : B.etcd.Server) (c : SchemaDefinition)
      (w : World B.etcd.Server)
      → IsPlain id
      → 1 ≤ c.version
      → schema_create M B cfg settings addr format_flag file id (quiet s)
        ≡ (ok (SchemaResponse.schema c), w)
      → schema_get M B cfg settings addr id (format_uint c.version) w
        ≡ (ok (SchemaResponse.schema c), w)
  unfolding send_schema
  schema_get-schema_create format_flag file id s c w plain low e =
      let sent = schema_create-ok format_flag file id (quiet s) e in
      let method = serve_schema B (SchemaRequest.create_schema (some sent.0)) in
      let made =
        serve_schema-created sent.0 (quiet s)
          (call-ok M cfg settings addr method (quiet s) sent.2) in
      let read =
        subst (λ i. get_schema B i c.version w ≡ (ok c, w)) sent.1
          (get_schema-create_schema B sent.0 s c w c.version (rw sent.1 plain) made (inr refl)) in
      schema_get-sent id (format_uint c.version) c.version w
        (parse_schema_version-format_uint c.version low (version-bound sent.0 s c w made))
      ∙ call-again M cfg settings addr method (quiet s)
          (serve_schema B (SchemaRequest.get_schema id c.version)) w sent.2
      ∙ ap (λ x. answered (handled x)) (serve_schema-got id c.version w c read)

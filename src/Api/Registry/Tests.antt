-- ===== src/Api/Registry/Tests.antt =====
-- Runs of the schema registry on the concrete table, and the theorems at them.
use flow_pipe.Prelude.{
  ℕ, ◌≡◌, refl, sym, some, true, false, Bool, if◌then◌else◌, List, [], ◌∷◌, Elem, All, inl, inr,
  arith, ◌+◌, ◌%◌, ◌^◌, ◌↔◌,
}
use flow_pipe.Text.{Text, codes, text_eq, text_eq→eq, has_prefix}
use flow_pipe.Text.FilePath.{path_join}
use flow_pipe.Text.FilePath.Laws.{IsPlain, is_plain, is_plain-IsPlain}
use flow_pipe.Text.Decimal.{format_uint, parse_uint}
use flow_pipe.Proto.{SchemaDefinition, SchemaFormat}
use flow_pipe.Remote.{ok, err, lost, World, quiet, ◌>>=◌, pure, raise, lift}
use flow_pipe.Etcd.Table.{table, Entries, find, put_list}
use flow_pipe.Etcd.Table.Codecs.{spec_codec, status_codec}
use flow_pipe.Etcd.Table.Schemas.{schema_codec, marshal_schema, unmarshal_schema, mark, unmark}
use flow_pipe.Backend.{Backend, get_key, commit, flow_not_found}
use flow_pipe.Api.Keys.{active_key, flow_prefix}
use flow_pipe.Api.Keys.Layout.{active_key-IsKey}
use flow_pipe.Api.Flows.{get_flow}
use flow_pipe.Api.Schemas.{
  schema_prefix, schema_active_key, schema_version_key, schema_versions_prefix, next_schema_version,
  schema_unchanged, commit_schema, create_schema_version, create_schema, read_schema, get_schema,
  list_schema_versions,
}
use flow_pipe.Api.Schemas.Created.{get_schema-create_schema}
use flow_pipe.Api.Schemas.Versions.{create_schema_numbers, create_schema_keeps_versions}
use flow_pipe.Api.Schemas.Listing.{list_schema_versions_exact, IsAscending, StoredVersion}
use flow_pipe.Api.Registry.{SchemaRequest, serve_schema}
use flow_pipe.Api.Registry.Apart.{serve_schema_leaves_flows, delete_schema_removes_flows}

abbrev backend : Backend
backend = record {
  etcd = table;
  specs = spec_codec;
  statuses = status_codec;
  schemas = schema_codec;
}

abbrev orders : Text
orders = codes "orders"

orders-IsPlain : IsPlain orders
unfolding is_plain
orders-IsPlain = is_plain-IsPlain orders refl

abbrev orders_at : ℕ → Text → SchemaDefinition
orders_at v raw = record {
  schema_id = orders;
  version = v;
  format = SchemaFormat.json;
  raw_schema = raw;
}

abbrev encoded : ℕ → Text → Text
encoded v raw = v ∷ 4 ∷ mark orders raw

-- One version of "orders", and a flow "orders" that is at its first.
abbrev stored : Entries
stored =
    (schema_active_key orders, codes "1")
    ∷ (schema_version_key orders 1, encoded 1 (codes "{}"))
    ∷ (active_key orders, codes "1")
    ∷ []

-- "orders" at the largest version that a uint32 holds.
abbrev at_the_end : Entries
at_the_end =
    (schema_active_key orders, codes "4294967296")
    ∷ (schema_version_key orders 1, encoded 1 (codes "{}"))
    ∷ []

abbrev second : SchemaDefinition
second = orders_at 2 (codes "[]")

-- The server after a second version.
created : World Entries
created = (create_schema backend (some (orders_at 0 (codes "[]"))) (quiet stored)).1

create_second :
    create_schema backend (some (orders_at 0 (codes "[]"))) (quiet stored) ≡ (ok second, created)
unfolding created create_schema create_schema_version commit_schema next_schema_version
    schema_unchanged schema_active_key schema_version_key schema_prefix path_join format_uint
    parse_uint get_key commit ◌>>=◌ pure raise lift find put_list marshal_schema text_eq
create_second = refl

-- Behind the largest uint32 comes a version 1 that replaces the old one.
create_first_again : create_schema backend (some (orders_at 0 (codes "[]"))) (quiet at_the_end) ≡ (
  ok (orders_at 1 (codes "[]")),
  (create_schema backend (some (orders_at 0 (codes "[]"))) (quiet at_the_end)).1,
)
unfolding create_schema create_schema_version commit_schema next_schema_version schema_unchanged
    schema_active_key schema_version_key schema_prefix path_join format_uint parse_uint get_key
    commit ◌>>=◌ pure raise lift find put_list marshal_schema text_eq
create_first_again = refl

get_schema-create_schema_example : get_schema backend orders 0 created ≡ (ok second, created)
get_schema-create_schema_example =
    get_schema-create_schema backend (orders_at 0 (codes "[]")) stored second created 0
      orders-IsPlain create_second (inl refl)

create_schema_numbers_example :
    let after = create_schema backend (some (orders_at 0 (codes "[]"))) (quiet at_the_end) in
    (1 ≡ (4294967296 + 1) % 2 ^ 32)
    × (find after.1.server (schema_active_key orders)
        ≡ some (format_uint ((4294967296 + 1) % 2 ^ 64)))
    × ((bytes : Text) × (marshal_schema (orders_at 1 (codes "[]")) ≡ some bytes)
        × (find after.1.server (schema_version_key orders 1) ≡ some bytes))
unfolding parse_uint find text_eq schema_active_key schema_prefix path_join
create_schema_numbers_example =
    create_schema_numbers backend (orders_at 0 (codes "[]")) at_the_end (orders_at 1 (codes "[]")) _
      (some 4294967296) orders-IsPlain create_first_again refl

create_schema_keeps_versions_example :
    (read_schema backend orders 1 created).0 ≡ (read_schema backend orders 1 (quiet stored)).0
create_schema_keeps_versions_example =
    create_schema_keeps_versions backend (orders_at 0 (codes "[]")) stored second created orders 1
      orders-IsPlain orders-IsPlain create_second (ground arith) (inr (λ e. ground arith))

find-All :
    (P : Text → Text → Type 0) (t : Entries)
    → All (λ e. P e.0 e.1) t
    → (k v : Text) → find t k ≡ some v
    → P k v
unfolding find
find-All P [] h k v e = cc
find-All P ((j, u) ∷ t) h k v e = hit_case (text_eq j k) refl e (find-All P t h.1 k v)
  where
    hit_case :
        (b : Bool)
        → text_eq j k ≡ b
        → (if b then some u else find t k) ≡ some v
        → (find t k ≡ some v → P k v)
        → P k v
    hit_case true same f rest =
        let jk : j ≡ k = text_eq→eq j k same in let uv : u ≡ v = cc in rw (sym jk, sym uv) h.0
    hit_case false same f rest = rest f

stored-decode :
    (k v : Text)
    → StoredVersion backend stored orders k v
    → (c : SchemaDefinition) × (unmarshal_schema v ≡ some c)
unfolding schema_versions_prefix schema_active_key schema_version_key schema_prefix active_key
    flow_prefix path_join format_uint has_prefix unmarshal_schema mark unmark
stored-decode k v (p, f) =
    find-All
      (λ k v.
        has_prefix (schema_versions_prefix orders) k ≡ true
        → (c : SchemaDefinition) × (unmarshal_schema v ≡ some c))
      stored
      ((λ e. ground arith), ((λ e. (orders_at 1 (codes "{}"), refl)), ((λ e. ground arith), tt))) k
      v f p

list_schema_versions_exact_example :
    (schemas : List SchemaDefinition) × (list_schema_versions backend orders (quiet stored)
      ≡ (ok schemas, quiet stored))
    × IsAscending schemas
    × ((c : SchemaDefinition)
        → Elem c schemas ↔ (
            (k : Text) × (v : Text) × StoredVersion backend stored orders k v
            × (unmarshal_schema v ≡ some c)))
list_schema_versions_exact_example =
    list_schema_versions_exact backend orders stored refl stored-decode

serve_schema_leaves_flows_example :
    find
      (serve_schema backend
        (SchemaRequest.delete_schema orders)
        (record { server = stored; net = lost ∷ [] })).1.server
      (active_key orders)
    ≡ find stored (active_key orders)
serve_schema_leaves_flows_example =
    serve_schema_leaves_flows backend (SchemaRequest.delete_schema orders)
      (record { server = stored; net = lost ∷ [] }) (active_key orders) _ orders-IsPlain
      (active_key-IsKey orders-IsPlain)

delete_schema_removes_flows_example :
    (get_flow backend orders
      (serve_schema backend (SchemaRequest.delete_schema (codes "../flows")) (quiet stored)).1).0
    ≡ err (flow_not_found orders)
delete_schema_removes_flows_example =
    delete_schema_removes_flows backend orders stored orders-IsPlain

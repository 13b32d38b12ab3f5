-- ===== src/Etcd/Table/Schemas.antt =====
-- A concrete encoding of schemas: the version, the format, the identifier with a mark before each of
-- its bytes, and the payload.
use flow_pipe.Prelude.{ℕ, zero, suc, ◌≡◌, refl, ap, Option, none, some, [], ◌∷◌, arith}
use flow_pipe.Text.{Text}
use flow_pipe.Proto.{SchemaDefinition, SchemaFormat}
use flow_pipe.Etcd.{Codec}

abbrev format_code : SchemaFormat → ℕ
format_code SchemaFormat.unspecified = 0
format_code SchemaFormat.arrow = 1
format_code SchemaFormat.protobuf = 2
format_code SchemaFormat.flatbuffers = 3
format_code SchemaFormat.json = 4

abbrev format_of : ℕ → SchemaFormat
format_of zero = SchemaFormat.unspecified
format_of (suc zero) = SchemaFormat.arrow
format_of (suc (suc zero)) = SchemaFormat.protobuf
format_of (suc (suc (suc zero))) = SchemaFormat.flatbuffers
format_of n = SchemaFormat.json

format_of-format_code : (f : SchemaFormat) → format_of (format_code f) ≡ f
format_of-format_code SchemaFormat.unspecified = refl
format_of-format_code SchemaFormat.arrow = refl
format_of-format_code SchemaFormat.protobuf = refl
format_of-format_code SchemaFormat.flatbuffers = refl
format_of-format_code SchemaFormat.json = refl

unfoldable pub mark : Text → Text → Text
mark [] raw = 0 ∷ raw
mark (c ∷ id) raw = 1 ∷ c ∷ mark id raw

abbrev cons_first : ℕ → Option (Text × Text) → Option (Text × Text)
cons_first c none = none
cons_first c (some (id, raw)) = some (c ∷ id, raw)

unfoldable pub unmark : Text → Option (Text × Text)
unmark (zero ∷ raw) = some ([], raw)
unmark (suc k ∷ c ∷ rest) = cons_first c (unmark rest)
unmark s = none

unmark-mark : (id raw : Text) → unmark (mark id raw) ≡ some (id, raw)
unfolding unmark mark
unmark-mark [] raw = refl
unmark-mark (c ∷ id) raw = ap (cons_first c) (unmark-mark id raw)

unfoldable pub marshal_schema : SchemaDefinition → Option Text
unfolding mark
marshal_schema s = some (s.version ∷ format_code s.format ∷ mark s.schema_id s.raw_schema)

abbrev schema_of : ℕ → ℕ → Option (Text × Text) → Option SchemaDefinition
schema_of v f none = none
schema_of v f (some (id, raw)) =
    some (record { schema_id = id; version = v; format = format_of f; raw_schema = raw })

unfoldable pub unmarshal_schema : Text → Option SchemaDefinition
unfolding unmark
unmarshal_schema (v ∷ f ∷ rest) = schema_of v f (unmark rest)
unmarshal_schema s = none

pub unmarshal-marshal_schema :
    (s : SchemaDefinition) (b : Text) → marshal_schema s ≡ some b → unmarshal_schema b ≡ some s
unfolding marshal_schema unmarshal_schema
unmarshal-marshal_schema s b e =
    ground (arith, unmark-mark s.schema_id s.raw_schema, format_of-format_code s.format)

abbrev pub schema_codec : Codec SchemaDefinition
schema_codec = record {
  marshal = marshal_schema;
  unmarshal = unmarshal_schema;
  unmarshal-marshal = unmarshal-marshal_schema;
}

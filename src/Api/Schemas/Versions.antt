-- ===== src/Api/Schemas/Versions.antt =====
-- The numbers of schema versions, and that a version once created stays.
use flow_pipe.Prelude.{
  ℕ, ◌≡◌, ◌≢◌, refl, ap, sym, ◌∙◌, ◌⊎◌, inl, inr, false, Option, none, some, arith, ◌<◌, ◌+◌, ◌%◌,
  ◌^◌,
}
use flow_pipe.Text.{Text, text_eq}
use flow_pipe.Text.Decimal.{format_uint, parse_uint, u64_limit}
use flow_pipe.Text.FilePath.Laws.{IsPlain}
use flow_pipe.Proto.{SchemaDefinition}
use flow_pipe.Remote.{Result, ok, World, quiet, ◌>>=◌, continue, or_else, lift}
use flow_pipe.Backend.{Backend, StoreError, get_key, schema_version_missing, unmarshal_failed}
use flow_pipe.Api.Schemas.{
  schema_active_key, schema_version_key, next_schema_version, uint32, read_schema, create_schema,
}
use flow_pipe.Api.Schemas.Layout.{active-eq-version, version-eq-version}
use flow_pipe.Api.Schemas.Created.{WroteSchema, create_schema-Wrote, version-Wrote, active-Wrote}

-- The number that follows the active version, as a number without a bound.
abbrev pub following : Option ℕ → ℕ
following none = 1
following (some prev) = prev + 1

-- What the key of the active version holds stands for a number, or there is none.
abbrev pub ReadsAs : Option Text → Option ℕ → Type 0
ReadsAs none none = Unit
ReadsAs none (some prev) = ⊥
ReadsAs (some a) none = ⊥
ReadsAs (some a) (some prev) = parse_uint a ≡ some prev

next_number :
    (active : Option Text) (prev : Option ℕ) (next : ℕ)
    → ReadsAs active prev
    → next_schema_version active ≡ ok next
    → next ≡ following prev % u64_limit
unfolding next_schema_version
next_number none none next h e = ground arith
next_number none (some prev) next h e = absurd h
next_number (some a) none next h e = absurd h
next_number (some a) (some prev) next h e = ground arith

module _ (B : Backend) where
  -- If CreateSchema succeeds for a plain identifier with no network fault, let the number be 1 if
  -- there was no active version, and `prev + 1` if the active one was `prev`. The active version
  -- becomes that number modulo 2^64, the version that is returned is the number modulo 2^32, and the
  -- encoded schema is stored under that version, whatever was there before.
  pub create_schema_numbers :
      (schema : SchemaDefinition) (s : B.etcd.Server) (c : SchemaDefinition)
      (w : World B.etcd.Server) (prev : Option ℕ)
      → IsPlain schema.schema_id
      → create_schema B (some schema) (quiet s) ≡ (ok c, w)
      → ReadsAs (B.etcd.get s (schema_active_key schema.schema_id)) prev
      → (c.version ≡ following prev % 2 ^ 32)
        × (B.etcd.get w.server (schema_active_key schema.schema_id)
            ≡ some (format_uint (following prev % 2 ^ 64)))
        × ((bytes : Text) × (B.schemas.marshal c ≡ some bytes)
            × (B.etcd.get w.server (schema_version_key schema.schema_id c.version) ≡ some bytes))
  create_schema_numbers schema s c w prev plain e reads =
      let x = create_schema-Wrote B schema s e in
      let number = next_number _ prev x.next reads x.is_next in
      (
        ap (λ d. d.version) x.result ∙ ap uint32 number ∙ truncated (following prev),
        active-Wrote B plain x ∙ ap (λ n. some (format_uint n)) number,
        (
          x.bytes,
          ap B.schemas.marshal x.result ∙ x.encodes,
          ap (λ d. B.etcd.get w.server (schema_version_key schema.schema_id d.version)) x.result
              ∙ version-Wrote B plain x,
        ),
      )
    where
      truncated : (n : ℕ) → uint32 (n % u64_limit) ≡ n % 2 ^ 32
      truncated n = omega arith

  read_schema-same :
      (n : Text) (u : ℕ) (s : B.etcd.Server) (w : World B.etcd.Server)
      → w ≡ quiet w.server
      → B.etcd.get w.server (schema_version_key n u) ≡ B.etcd.get s (schema_version_key n u)
      → (read_schema B n u w).0 ≡ (read_schema B n u (quiet s)).0
  unfolding read_schema get_key ◌>>=◌ lift
  read_schema-same n u s w hn hk = rw (hn, hk) (same_result (B.etcd.get s (schema_version_key n u)))
    where
      decoded : Option Text → World B.etcd.Server → Result StoreError SchemaDefinition
      decoded stored v =
          (continue (or_else stored (schema_version_missing n u))
            (λ bytes. lift (or_else (B.schemas.unmarshal bytes) unmarshal_failed)) v).0

      same_result :
          (stored : Option Text) → decoded stored (quiet w.server) ≡ decoded stored (quiet s)
      same_result none = refl
      same_result (some bytes) = refl

  -- CreateSchema, where it succeeds for a plain identifier with no network fault, changes no version
  -- but the one that it creates: a version of another plain identifier, or another version of the
  -- same one, reads as before. (The versions compared are any uint64.)
  pub create_schema_keeps_versions :
      (schema : SchemaDefinition) (s : B.etcd.Server) (c : SchemaDefinition)
      (w : World B.etcd.Server) (n : Text) (u : ℕ)
      → IsPlain schema.schema_id
      → IsPlain n
      → create_schema B (some schema) (quiet s) ≡ (ok c, w)
      → u < u64_limit
      → (n ≢ schema.schema_id) ⊎ (u ≢ c.version)
      → (read_schema B n u w).0 ≡ (read_schema B n u (quiet s)).0
  create_schema_keeps_versions schema s c w n u plain pn e bound apart =
      let x = create_schema-Wrote B schema s e in
      read_schema-same n u s w x.net
        (x.contents (schema_version_key n u) ∙ rw (active-eq-version plain pn u, other x))
    where
      bound_of : (v : ℕ) → uint32 v < u64_limit
      bound_of v = omega arith

      other :
          (x : WroteSchema B schema.schema_id schema s c w)
          → text_eq (schema_version_key schema.schema_id (uint32 x.next)) (schema_version_key n u)
            ≡ false
      other x = version-eq-version plain pn (uint32 x.next) u (bound_of x.next) bound (elim apart [
        | inl h ↦ inl (λ q. h (sym q))
        | inr h ↦ inr (λ q. h (sym q ∙ ap (λ d. d.version) (sym x.result)))
      ])

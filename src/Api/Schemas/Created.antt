-- ===== src/Api/Schemas/Created.antt =====
-- What CreateSchema writes on a network without faults, and that GetSchema reads it back.
use flow_pipe.Prelude.{
  ℕ, ◌≡◌, ◌≢◌, refl, ap, sym, ◌∙◌, ◌⊎◌, inl, inr, true, false, Option, none, some, List, [], ◌∷◌,
  arith, if◌then◌else◌, Option-cases, Bool, Bool-cases, ◌==◌, ◌<◌,
}
use flow_pipe.Text.{Text, text_eq, text_eq_refl}
use flow_pipe.Text.Decimal.{format_uint, parse_uint, parse_uint-format_uint, u64_limit}
use flow_pipe.Text.FilePath.{is_empty}
use flow_pipe.Text.FilePath.Laws.{IsPlain}
use flow_pipe.Proto.{SchemaDefinition}
use flow_pipe.Remote.{Result, ok, err, World, quiet, continue, ◌>>=◌, or_else, raise, pure}
use flow_pipe.Etcd.{passes}
use flow_pipe.Backend.{
  Backend, Store, StoreError, get_key, commit, marshal_failed, schema_id_required,
  schema_format_required, schema_payload_required,
}
use flow_pipe.Api.Schemas.{
  schema_active_key, schema_version_key, uint32, next_schema_version, schema_unchanged, stamp,
  commit_schema, create_schema_version, create_schema, active_schema_version, is_unspecified,
  choose_version, read_schema, get_schema,
}
use flow_pipe.Api.Schemas.Layout.{active-eq-version}

pub next_schema_version-bound :
    (active : Option Text) (next : ℕ) → next_schema_version active ≡ ok next → next < u64_limit
unfolding next_schema_version
next_schema_version-bound none next h = ground arith
next_schema_version-bound (some a) next h = ground arith

-- A key that was just read passes the comparison.
schema_unchanged-passes :
    (B : Backend) (id : Text) (s : B.etcd.Server)
    → passes (B.etcd.get s) (schema_unchanged id (B.etcd.get s (schema_active_key id))) ≡ true
unfolding schema_unchanged
schema_unchanged-passes B id s = elim (Option-cases (B.etcd.get s (schema_active_key id))) [
  | inl e ↦ rw (e, e)
  | inr (a, e) ↦ rw (e, e) (text_eq_refl a)
]

active_schema_version-parses :
    (id a : Text) (v : ℕ)
    → parse_uint a ≡ some v
    → active_schema_version id (some a) ≡ ok (uint32 v)
active_schema_version-parses id a v h = rw (active_schema_version, h)

module _ (B : Backend) where
  -- A creation that succeeded on a network without faults: the version that it wrote, and what
  -- every key holds afterwards.
  pub record WroteSchema (id : Text) (schema : SchemaDefinition) (s : B.etcd.Server)
      (c : SchemaDefinition) (w : World B.etcd.Server) : Type 0 where
    pub next : ℕ
    pub bytes : Text
    pub is_next : next_schema_version (B.etcd.get s (schema_active_key id)) ≡ ok next
    pub encodes : B.schemas.marshal (stamp next schema) ≡ some bytes
    pub result : c ≡ stamp next schema
    pub net : w ≡ quiet w.server
    pub contents :
        (j : Text)
        → B.etcd.get w.server j ≡ (
            if text_eq (schema_active_key id) j
            then some (format_uint next)
            else if text_eq (schema_version_key id (uint32 next)) j
            then some bytes
            else B.etcd.get s j)

  committed-Wrote :
      (id : Text) (schema : SchemaDefinition) (s : B.etcd.Server) (next : ℕ) (bytes : Text)
      → next_schema_version (B.etcd.get s (schema_active_key id)) ≡ ok next
      → B.schemas.marshal (stamp next schema) ≡ some bytes
      → {c : SchemaDefinition} {w : World B.etcd.Server}
      → commit_schema B id
          (B.etcd.get s (schema_active_key id))
          next
          (stamp next schema)
          bytes
          (quiet s)
        ≡ (ok c, w)
      → WroteSchema id schema s c w
  unfolding commit_schema commit ◌>>=◌
  committed-Wrote id schema s next bytes is_next encodes {c} {w} e =
      let holds = schema_unchanged-passes B id s in
      let cmp = schema_unchanged id (B.etcd.get s (schema_active_key id)) in
      let puts : List (Text × Text) =
        (schema_version_key id (uint32 next), bytes)
        ∷ (schema_active_key id, format_uint next)
        ∷ [] in
      let done : (ok (stamp next schema), quiet (B.etcd.txn cmp puts s).1) ≡ (ok c, w) =
        rw (B.etcd.txn-passes cmp puts s ∙ holds) at e in
      let world : w ≡ quiet (B.etcd.txn cmp puts s).1 = sym (ap (λ x. x.1) done) in
      record {
        next = next;
        bytes = bytes;
        is_next = is_next;
        encodes = encodes;
        result = cc (ap (λ x. x.0) done);
        net = rw world;
        contents = λ j. rw world (B.etcd.get-txn cmp puts s j ∙ rw holds);
      }

  create_schema_version-Wrote :
      (id : Text) (schema : SchemaDefinition) (s : B.etcd.Server) {c : SchemaDefinition}
      {w : World B.etcd.Server}
      → create_schema_version B id schema (quiet s) ≡ (ok c, w)
      → WroteSchema id schema s c w
  unfolding create_schema_version get_key ◌>>=◌
  create_schema_version-Wrote id schema s {c} {w} e =
      next_cases (next_schema_version (B.etcd.get s (schema_active_key id))) refl e
    where
      active : Option Text
      active = B.etcd.get s (schema_active_key id)

      after_next : ℕ → Store B SchemaDefinition
      after_next next w =
          continue (or_else (B.schemas.marshal (stamp next schema)) marshal_failed)
            (λ payload. commit_schema B id active next (stamp next schema) payload) w

      bytes_cases :
          (next : ℕ) (o : Option Text)
          → next_schema_version active ≡ ok next
          → B.schemas.marshal (stamp next schema) ≡ o
          → continue
              (or_else o marshal_failed)
              (λ payload. commit_schema B id active next (stamp next schema) payload)
              (quiet s)
            ≡ (ok c, w)
          → WroteSchema id schema s c w
      bytes_cases next none en eb h = cc (ap (λ x. x.0) h)
      bytes_cases next (some bytes) en eb h = committed-Wrote id schema s next bytes en eb h

      next_cases :
          (r : Result StoreError ℕ)
          → next_schema_version active ≡ r
          → continue r after_next (quiet s) ≡ (ok c, w)
          → WroteSchema id schema s c w
      next_cases (err x) er h = cc (ap (λ x. x.0) h)
      next_cases (ok next) er h = bytes_cases next _ er refl h

  pub create_schema-Wrote :
      (schema : SchemaDefinition) (s : B.etcd.Server) {c : SchemaDefinition}
      {w : World B.etcd.Server}
      → create_schema B (some schema) (quiet s) ≡ (ok c, w)
      → WroteSchema schema.schema_id schema s c w
  unfolding create_schema raise
  create_schema-Wrote schema s {c} {w} e = create_schema_version-Wrote schema.schema_id schema s (
      guards (is_empty schema.schema_id) (is_unspecified schema.format) (is_empty schema.raw_schema)
        (create_schema_version B schema.schema_id schema) e)
    where
      guards :
          (a b d : Bool) (m : Store B SchemaDefinition)
          → (if a
                then raise schema_id_required
                else if b
                then raise schema_format_required
                else if d
                then raise schema_payload_required
                else m)
              (quiet s)
            ≡ (ok c, w)
          → m (quiet s) ≡ (ok c, w)
      guards true b d m h = cc (ap (λ x. x.0) h)
      guards false true d m h = cc (ap (λ x. x.0) h)
      guards false false true m h = cc (ap (λ x. x.0) h)
      guards false false false m h = h

  read_schema-stored :
      (id : Text) (v : ℕ) (s : B.etcd.Server) (bytes : Text) (c : SchemaDefinition)
      → B.etcd.get s (schema_version_key id v) ≡ some bytes
      → B.schemas.unmarshal bytes ≡ some c
      → read_schema B id v (quiet s) ≡ (ok c, quiet s)
  unfolding read_schema get_key ◌>>=◌
  read_schema-stored id v s bytes c hb hu = rw (hb, hu)

  choose_version-active :
      (id : Text) (s : B.etcd.Server) (a : Text) (v : ℕ)
      → B.etcd.get s (schema_active_key id) ≡ some a
      → parse_uint a ≡ some v
      → choose_version B id 0 (quiet s) ≡ (ok (uint32 v), quiet s)
  unfolding choose_version get_key ◌>>=◌
  choose_version-active id s a v ha hp =
      rw ha (ap (λ r. (r, quiet s)) (active_schema_version-parses id a v hp))

  choose_version-given :
      (id : Text) (v : ℕ) (s : B.etcd.Server)
      → v ≢ 0
      → choose_version B id v (quiet s) ≡ (ok v, quiet s)
  unfolding choose_version pure
  choose_version-given id v s h = elim (Bool-cases (v == 0)) [
    | inl e ↦ absurd (h (ground arith))
    | inr e ↦ rw e
  ]

  get_schema-chosen :
      (id : Text) (version v : ℕ) (s : B.etcd.Server) (c : SchemaDefinition)
      → is_empty id ≡ false
      → choose_version B id version (quiet s) ≡ (ok v, quiet s)
      → read_schema B id v (quiet s) ≡ (ok c, quiet s)
      → get_schema B id version (quiet s) ≡ (ok c, quiet s)
  unfolding get_schema ◌>>=◌
  get_schema-chosen id version v s c h hc hr = rw (h, hc, hr)

  module _ {id : Text} (plain : IsPlain id) {schema : SchemaDefinition} {s : B.etcd.Server} where
    pub version-Wrote :
        {c : SchemaDefinition} {w : World B.etcd.Server} (x : WroteSchema id schema s c w)
        → B.etcd.get w.server (schema_version_key id (uint32 x.next)) ≡ some x.bytes
    version-Wrote x = rw (
      x.contents (schema_version_key id (uint32 x.next)),
      active-eq-version plain plain (uint32 x.next),
      text_eq_refl (schema_version_key id (uint32 x.next)),
    )

    pub active-Wrote :
        {c : SchemaDefinition} {w : World B.etcd.Server} (x : WroteSchema id schema s c w)
        → B.etcd.get w.server (schema_active_key id) ≡ some (format_uint x.next)
    active-Wrote x = rw (x.contents (schema_active_key id), text_eq_refl (schema_active_key id))

    read-Wrote :
        {c : SchemaDefinition} {w : World B.etcd.Server}
        → WroteSchema id schema s c w
        → (version : ℕ) → choose_version B id version w ≡ (ok c.version, w)
        → get_schema B id version w ≡ (ok c, w)
    read-Wrote {c} {w} x version h = rw x.net (
        get_schema-chosen id version c.version w.server c plain.nonempty (rw x.net at h) (
          read_schema-stored id c.version w.server x.bytes c (rw x.result (version-Wrote x))
            (rw x.result (B.schemas.unmarshal-marshal _ x.bytes x.encodes))))

    choose-Wrote :
        {c : SchemaDefinition} {w : World B.etcd.Server}
        → WroteSchema id schema s c w
        → choose_version B id 0 w ≡ (ok c.version, w)
    choose-Wrote {c} {w} x =
        rw (x.net, x.result)
          (choose_version-active id w.server (format_uint x.next) x.next (active-Wrote x)
            (parse_uint-format_uint x.next (next_schema_version-bound _ x.next x.is_next)))

    get_schema-Wrote :
        {c : SchemaDefinition} {w : World B.etcd.Server}
        → WroteSchema id schema s c w
        → (version : ℕ) → (version ≡ 0) ⊎ (version ≡ c.version)
        → get_schema B id version w ≡ (ok c, w)
    get_schema-Wrote {c} {w} x version (inl e) = read-Wrote x version (rw e (choose-Wrote x))
    get_schema-Wrote {c} {w} x version (inr e) =
        read-Wrote x version (elim (Bool-cases (version == 0)) [
          | inl zero_ ↦ rw (at_zero zero_) (choose-Wrote x)
          | inr other ↦
              rw (sym e, x.net) (choose_version-given id version w.server (λ z. ground arith))
        ])
      where
        at_zero : (version == 0) ≡ true → version ≡ 0
        at_zero h = ground arith

  -- If CreateSchema succeeds for a schema with a plain identifier and no network fault, GetSchema of
  -- that identifier right after it returns the very schema that CreateSchema returned, both when no
  -- version is asked for (version 0, which stands for the active one) and when the schema's own is;
  -- it changes nothing.
  pub get_schema-create_schema :
      (schema : SchemaDefinition) (s : B.etcd.Server) (c : SchemaDefinition)
      (w : World B.etcd.Server) (version : ℕ)
      → IsPlain schema.schema_id
      → create_schema B (some schema) (quiet s) ≡ (ok c, w)
      → (version ≡ 0) ⊎ (version ≡ c.version)
      → get_schema B schema.schema_id version w ≡ (ok c, w)
  get_schema-create_schema schema s c w version plain e h =
      get_schema-Wrote plain (create_schema-Wrote schema s e) version h

-- ===== src/Api/Schemas/Listing.antt =====
-- What ListSchemaVersions returns: the stored versions, by number.
use flow_pipe.Prelude.{
  ℕ, ◌≡◌, ◌↔◌, refl, ap, sym, ◌∙◌, ◌⊎◌, inl, inr, Bool, true, false, some, List, [], ◌∷◌, arith,
  if◌then◌else◌, ltb, ◌≤◌, All, Elem,
}
use flow_pipe.Text.{Text, has_prefix}
use flow_pipe.Text.FilePath.{is_empty}
use flow_pipe.Proto.{SchemaDefinition}
use flow_pipe.Remote.{ok, quiet, ◌>>=◌, pure}
use flow_pipe.Backend.{Backend, get_keys}
use flow_pipe.Api.Schemas.{
  schema_versions_prefix, insert_version, sort_versions, decode_all, list_schema_versions,
}

-- The versions do not descend.
abbrev pub IsAscending : List SchemaDefinition → Type 0
IsAscending [] = Unit
IsAscending (s ∷ ss) = All (λ t. s.version ≤ t.version) ss × IsAscending ss

insert_version-Elem :
    (c s : SchemaDefinition) (ss : List SchemaDefinition)
    → Elem c (insert_version s ss) ↔ ((c ≡ s) ⊎ Elem c ss)
unfolding insert_version
insert_version-Elem c s [] = (λ h. h, λ h. h)
insert_version-Elem c s (t ∷ ts) = branch (ltb t.version s.version) (insert_version-Elem c s ts)
  where
    branch :
        (b : Bool)
        → Elem c (insert_version s ts) ↔ ((c ≡ s) ⊎ Elem c ts)
        → Elem c (if b then t ∷ insert_version s ts else s ∷ t ∷ ts)
          ↔ ((c ≡ s) ⊎ ((c ≡ t) ⊎ Elem c ts))
    branch false h = (λ e. e, λ e. e)
    branch true h = (out, back)
      where
        out : (c ≡ t) ⊎ Elem c (insert_version s ts) → (c ≡ s) ⊎ ((c ≡ t) ⊎ Elem c ts)
        out (inl e) = inr (inl e)
        out (inr e) = elim (h.0 e) [ inl a ↦ inl a | inr b ↦ inr (inr b) ]

        back : (c ≡ s) ⊎ ((c ≡ t) ⊎ Elem c ts) → (c ≡ t) ⊎ Elem c (insert_version s ts)
        back (inl e) = inr (h.1 (inl e))
        back (inr (inl e)) = inl e
        back (inr (inr e)) = inr (h.1 (inr e))

sort_versions-Elem :
    (c : SchemaDefinition) (ss : List SchemaDefinition) → Elem c (sort_versions ss) ↔ Elem c ss
unfolding sort_versions
sort_versions-Elem c [] = (λ h. h, λ h. h)
sort_versions-Elem c (s ∷ ss) = (
  λ h. elim ((insert_version-Elem c s (sort_versions ss)).0 h) [
    | inl e ↦ inl e
    | inr e ↦ inr ((sort_versions-Elem c ss).0 e)
  ],
  λ h.
      (insert_version-Elem c s (sort_versions ss)).1
        (elim h [ inl e ↦ inl e | inr e ↦ inr ((sort_versions-Elem c ss).1 e) ]),
)

insert_version-All :
    (n : ℕ) (s : SchemaDefinition) (ss : List SchemaDefinition)
    → n ≤ s.version
    → All (λ t. n ≤ t.version) ss
    → All (λ t. n ≤ t.version) (insert_version s ss)
unfolding insert_version
insert_version-All n s [] h hs = (h, tt)
insert_version-All n s (t ∷ ts) h hs =
    branch (ltb t.version s.version) (insert_version-All n s ts h hs.1)
  where
    branch :
        (b : Bool)
        → All (λ t. n ≤ t.version) (insert_version s ts)
        → All (λ t. n ≤ t.version) (if b then t ∷ insert_version s ts else s ∷ t ∷ ts)
    branch true rest = (hs.0, rest)
    branch false rest = (h, hs)

All-weaken :
    (m n : ℕ) (ss : List SchemaDefinition)
    → m ≤ n
    → All (λ t. n ≤ t.version) ss
    → All (λ t. m ≤ t.version) ss
All-weaken m n [] h hs = tt
All-weaken m n (s ∷ ss) h hs = (omega (arith, hs.0), All-weaken m n ss h hs.1)

insert_version-IsAscending :
    (s : SchemaDefinition) (ss : List SchemaDefinition)
    → IsAscending ss
    → IsAscending (insert_version s ss)
unfolding insert_version
insert_version-IsAscending s [] h = (tt, tt)
insert_version-IsAscending s (t ∷ ts) h =
    branch (ltb t.version s.version) refl (insert_version-IsAscending s ts h.1)
  where
    branch :
        (b : Bool)
        → ltb t.version s.version ≡ b
        → IsAscending (insert_version s ts)
        → IsAscending (if b then t ∷ insert_version s ts else s ∷ t ∷ ts)
    branch true e rest = (insert_version-All t.version s ts (ground arith) h.0, rest)
    branch false e rest =
        let below : s.version ≤ t.version = ground arith in
        ((below, All-weaken s.version t.version ts below h.0), h)

sort_versions-IsAscending : (ss : List SchemaDefinition) → IsAscending (sort_versions ss)
unfolding sort_versions
sort_versions-IsAscending [] = tt
sort_versions-IsAscending (s ∷ ss) =
    insert_version-IsAscending s (sort_versions ss) (sort_versions-IsAscending ss)

module _ (B : Backend) where
  -- `c` is what the value of some entry decodes to.
  abbrev DecodesIn : SchemaDefinition → List (Text × Text) → Type 0
  DecodesIn c kvs = (k : Text) × (v : Text) × Elem (k, v) kvs × (B.schemas.unmarshal v ≡ some c)

  -- Every value decodes.
  abbrev AllDecode : List (Text × Text) → Type 0
  AllDecode kvs =
      (k v : Text) → Elem (k, v) kvs → (c : SchemaDefinition) × (B.schemas.unmarshal v ≡ some c)

  -- What the loop returns, if every value decodes.
  record Decoded (kvs : List (Text × Text)) : Type 0 where
    schemas : List SchemaDefinition
    returns : decode_all B kvs ≡ some schemas
    exact : (c : SchemaDefinition) → Elem c schemas ↔ DecodesIn c kvs

  decode_all-cons :
      (key value : Text) (kvs : List (Text × Text)) (c : SchemaDefinition)
      (cs : List SchemaDefinition)
      → B.schemas.unmarshal value ≡ some c
      → decode_all B kvs ≡ some cs
      → decode_all B ((key, value) ∷ kvs) ≡ some (c ∷ cs)
  unfolding decode_all
  decode_all-cons key value kvs c cs hc hcs = rw (decode_all, hc, hcs)

  decode_all-Decoded : (kvs : List (Text × Text)) → AllDecode kvs → Decoded kvs
  unfolding decode_all
  decode_all-Decoded [] all = record {
    schemas = [];
    returns = refl;
    exact = λ c. (λ h. absurd h, λ d. absurd d.2);
  }
  decode_all-Decoded ((key, value) ∷ kvs) all =
      let first = all key value (inl refl) in
      let rest = decode_all-Decoded kvs (λ k v h. all k v (inr h)) in
      record {
        schemas = first.0 ∷ rest.schemas;
        returns = decode_all-cons key value kvs first.0 rest.schemas first.1 rest.returns;
        exact = λ c. (out c first rest, back c first rest);
      }
    where
      out :
          (c : SchemaDefinition)
          (first : (c : SchemaDefinition) × (B.schemas.unmarshal value ≡ some c))
          (rest : Decoded kvs)
          → Elem c (first.0 ∷ rest.schemas)
          → DecodesIn c ((key, value) ∷ kvs)
      out c first rest (inl e) = (key, value, inl refl, first.1 ∙ ap some (sym e))
      out c first rest (inr h) = let d = (rest.exact c).0 h in (d.0, d.1, inr d.2, d.3)

      back :
          (c : SchemaDefinition)
          (first : (c : SchemaDefinition) × (B.schemas.unmarshal value ≡ some c))
          (rest : Decoded kvs)
          → DecodesIn c ((key, value) ∷ kvs)
          → Elem c (first.0 ∷ rest.schemas)
      back c first rest (k, v, inl e, d) = let same : v ≡ value = ap (λ x. x.1) e in inl (cc)
      back c first rest (k, v, inr e, d) = inr ((rest.exact c).1 (k, v, e, d))

  list_schema_versions-decoded :
      (id : Text) (s : B.etcd.Server) (schemas : List SchemaDefinition)
      → is_empty id ≡ false
      → decode_all B (B.etcd.get_prefix s (schema_versions_prefix id)) ≡ some schemas
      → list_schema_versions B id (quiet s) ≡ (ok (sort_versions schemas), quiet s)
  unfolding list_schema_versions get_keys ◌>>=◌ pure
  list_schema_versions-decoded id s schemas h d = rw (h, d)

  -- The value `v` stands under a key of the identifier's versions.
  abbrev pub StoredVersion : B.etcd.Server → Text → Text → Text → Type 0
  StoredVersion s id k v =
      (has_prefix (schema_versions_prefix id) k ≡ true) × (B.etcd.get s k ≡ some v)

  -- ListSchemaVersions, served without a fault for an identifier that is not empty and whose stored
  -- versions all decode, succeeds; its list is in the order of the version numbers, and holds a
  -- schema exactly if some key of the identifier's versions holds an encoding of it.
  pub list_schema_versions_exact :
      (id : Text) (s : B.etcd.Server)
      → is_empty id ≡ false
      → ((k v : Text)
          → StoredVersion s id k v
          → (c : SchemaDefinition) × (B.schemas.unmarshal v ≡ some c))
      → (schemas : List SchemaDefinition) × (list_schema_versions B id (quiet s)
          ≡ (ok schemas, quiet s))
        × IsAscending schemas
        × ((c : SchemaDefinition)
            → Elem c schemas ↔ (
                (k : Text) × (v : Text) × StoredVersion s id k v
                × (B.schemas.unmarshal v ≡ some c)))
  list_schema_versions_exact id s h all =
      let kvs = B.etcd.get_prefix s (schema_versions_prefix id) in
      let d = decode_all-Decoded kvs (λ k v e. all k v ((stored k v).0 e)) in
      (
        sort_versions d.schemas,
        list_schema_versions-decoded id s d.schemas h d.returns,
        sort_versions-IsAscending d.schemas,
        λ c. (
          λ e.
              let x = (d.exact c).0 ((sort_versions-Elem c d.schemas).0 e) in
              (x.0, x.1, (stored x.0 x.1).0 x.2, x.3),
          λ x.
              (sort_versions-Elem c d.schemas).1
                ((d.exact c).1 (x.0, x.1, (stored x.0 x.1).1 x.2, x.3)),
        ),
      )
    where
      stored :
          (k v : Text)
          → Elem (k, v) (B.etcd.get_prefix s (schema_versions_prefix id)) ↔ StoredVersion s id k v
      stored k v = B.etcd.get_prefix-Elem s (schema_versions_prefix id) k v

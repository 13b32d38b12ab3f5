-- ===== src/Api/Flows/Consistency.antt =====
-- An invariant of the flows in etcd: stored versions decode to specs with that name and version, and
-- every active version is stored.
pub mod Methods
pub mod Rollback
use flow_pipe.Prelude.{
  ℕ, ◌<◌, ◌≡◌, refl, subst, ap, sym, fun_ext, ◌∙◌, Bool, true, false, Option, none, some, List, [],
  ◌∷◌, arith, if◌then◌else◌, Bool-cases, Option-cases, inl, inr, ◌==◌, ◌&&◌, ==_iff, ◌⊎◌,
}
use flow_pipe.Text.{Text, text_eq, text_eq→eq, has_prefix}
use flow_pipe.Text.Decimal.{format_uint, parse_uint, u64_limit, parse_uint-format_uint}
use flow_pipe.Text.FilePath.Laws.{IsPlain}
use flow_pipe.Proto.{FlowSpec, Flow}
use flow_pipe.Remote.{Result, Outcome, served, refused, lost, ok, err, World, request}
use flow_pipe.Remote.Laws.{Keeps, Keeps-request, Keeps-bind, Keeps-continue}
use flow_pipe.Etcd.{passes, put_all}
use flow_pipe.Backend.{Backend, StoreError, get_key, put_key, delete_keys, commit}
use flow_pipe.Api.Keys.{active_key, version_spec_key, flow_prefix}
use flow_pipe.Api.Keys.Distinct.{
  active-eq-active, version-eq-active, active-eq-version, version-eq-version,
}
use flow_pipe.Api.Flows.{
  unchanged, Prepared, prepare_version, commit_version, create_new_version, create_flow,
  update_flow,
}
use flow_pipe.Api.Flows.Write.{next_version-bound, Prepares, prepare_version-Prepares}

module _ (B : Backend) where
  -- `b` decodes to a spec of this name and version.
  pub record Decodes (b : Text) (n : Text) (v : ℕ) : Type 0 where
    pub spec : FlowSpec
    pub decodes : B.specs.unmarshal b ≡ some spec
    pub name_is : spec.name ≡ n
    pub version_is : spec.version ≡ v

  -- The active version `a` of `n` is a uint64 whose spec is stored.
  pub record Points (contents : Text → Option Text) (n a : Text) : Type 0 where
    pub version : ℕ
    pub bound : version < u64_limit
    pub parses : parse_uint a ≡ some version
    pub bytes : Text
    pub is_stored : contents (version_spec_key n version) ≡ some bytes

  pub record AreConsistent (contents : Text → Option Text) : Type 0 where
    pub stored :
        (n : Text) (v : ℕ) (b : Text)
        → IsPlain n
        → v < u64_limit
        → contents (version_spec_key n v) ≡ some b
        → Decodes b n v
    pub pointed : (n a : Text) → IsPlain n → contents (active_key n) ≡ some a → Points contents n a

  abbrev pub IsConsistent : B.etcd.Server → Type 0
  IsConsistent s = AreConsistent (B.etcd.get s)

  -- The contents after both puts of a version.
  abbrev written : Text → ℕ → Text → (Text → Option Text) → Text → Option Text
  written m next bytes contents j =
      if text_eq (active_key m) j
      then some (format_uint next)
      else if text_eq (version_spec_key m next) j
      then some bytes
      else contents j

  written-stored :
      (m : Text) (next : ℕ) (bytes : Text) (contents : Text → Option Text)
      → IsPlain m
      → next < u64_limit
      → Decodes bytes m next
      → AreConsistent contents
      → (n : Text) (v : ℕ) (b : Text) → IsPlain n
      → v < u64_limit
      → written m next bytes contents (version_spec_key n v) ≡ some b
      → Decodes b n v
  written-stored m next bytes contents pm bn d c n v b pn bv h =
      decide (Bool-cases (text_eq m n && next == v))
        (rw (active-eq-version pm pn v, version-eq-version pm pn next v bn bv) at h)
    where
      decide :
          ((text_eq m n && next == v) ≡ true) ⊎ ((text_eq m n && next == v) ≡ false)
          → (if text_eq m n && next == v then some bytes else contents (version_spec_key n v))
            ≡ some b
          → Decodes b n v
      decide (inl same) e =
          let found : some bytes ≡ some b = rw same at e in
          let names : m ≡ n = text_eq→eq m n (ground arith) in
          let versions : next ≡ v = ground arith in
          record {
            spec = d.spec;
            decodes = cc;
            name_is = d.name_is ∙ names;
            version_is = d.version_is ∙ versions;
          }
      decide (inr other) e = c.stored n v b pn bv (rw other at e)

  written-pointed :
      (m : Text) (next : ℕ) (bytes : Text) (contents : Text → Option Text)
      → IsPlain m
      → next < u64_limit
      → AreConsistent contents
      → (n a : Text) → IsPlain n
      → written m next bytes contents (active_key n) ≡ some a
      → Points (written m next bytes contents) n a
  written-pointed m next bytes contents pm bn c n a pn h =
      decide (Bool-cases (text_eq m n))
        (rw (active-eq-active pm pn, version-eq-active pm pn next) at h)
    where
      decide :
          (text_eq m n ≡ true) ⊎ (text_eq m n ≡ false)
          → (if text_eq m n then some (format_uint next) else contents (active_key n)) ≡ some a
          → Points (written m next bytes contents) n a
      decide (inl same) e =
          let text : a ≡ format_uint next = cc (rw same at e) in
          record {
            version = next;
            bound = bn;
            parses = rw text (parse_uint-format_uint next bn);
            bytes = bytes;
            is_stored = rw (
              active-eq-version pm pn next,
              version-eq-version pm pn next next bn bn,
              same,
              (==_iff next next).1 refl,
            );
          }
      decide (inr other) e =
          let p = c.pointed n a pn (rw other at e) in
          record {
            version = p.version;
            bound = p.bound;
            parses = p.parses;
            bytes = p.bytes;
            is_stored =
                rw
                  (
                    active-eq-version pm pn p.version,
                    version-eq-version pm pn next p.version bn p.bound,
                    other,
                  )
                  p.is_stored;
          }

  -- Contents that agree at every key are consistent together.
  pub AreConsistent-cong :
      (c c' : Text → Option Text) → ((j : Text) → c' j ≡ c j) → AreConsistent c → AreConsistent c'
  AreConsistent-cong c c' same h = subst AreConsistent (fun_ext (λ j. sym (same j))) h

  written-AreConsistent :
      (m : Text) (next : ℕ) (bytes : Text) (contents : Text → Option Text)
      → IsPlain m
      → next < u64_limit
      → Decodes bytes m next
      → AreConsistent contents
      → AreConsistent (written m next bytes contents)
  written-AreConsistent m next bytes contents pm bn d c = record {
    stored = written-stored m next bytes contents pm bn d c;
    pointed = written-pointed m next bytes contents pm bn c;
  }

  -- Both ends of the transaction.
  branch-AreConsistent :
      (b : Bool) (c c' : Text → Option Text)
      → AreConsistent c
      → AreConsistent c'
      → AreConsistent (λ j. if b then c' j else c j)
  branch-AreConsistent true c c' h h' = h'
  branch-AreConsistent false c c' h h' = h

  pub commit-IsConsistent :
      (m : Text) (spec : FlowSpec) (active : Option Text) (p : Prepared)
      → IsPlain m
      → spec.name ≡ m
      → Prepares B m spec active p
      → Keeps IsConsistent (commit B p.compare p.puts)
  unfolding commit
  commit-IsConsistent m spec active p pm named r =
      Keeps-request (B.etcd.txn p.compare p.puts) StoreError.unavailable λ s c.
        AreConsistent-cong
          (λ j.
            if passes (B.etcd.get s) p.compare
            then written m r.next r.bytes (B.etcd.get s) j
            else B.etcd.get s j)
          (B.etcd.get (B.etcd.txn p.compare p.puts s).1)
          (λ j.
            B.etcd.get-txn p.compare p.puts s j
            ∙ ap
                (λ (q : Prepared).
                  if passes (B.etcd.get s) p.compare
                  then put_all (B.etcd.get s) q.puts j
                  else B.etcd.get s j)
                r.is_prepared)
          (branch-AreConsistent (passes (B.etcd.get s) p.compare) (B.etcd.get s)
            (written m r.next r.bytes (B.etcd.get s)) c
            (written-AreConsistent m r.next r.bytes (B.etcd.get s) pm
              (next_version-bound active r.next r.is_next)
              (record {
                spec = record spec { version = r.next };
                decodes = B.specs.unmarshal-marshal _ r.bytes r.encodes;
                name_is = named;
                version_is = refl;
              })
              c))

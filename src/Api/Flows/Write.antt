-- ===== src/Api/Flows/Write.antt =====
-- What the creation of a version does to etcd, step by step.
use flow_pipe.Prelude.{
  ℕ, ◌<◌, ◌≡◌, refl, ◌∙◌, true, false, Option, none, some, [], ◌∷◌, arith, Option-cases, inl, inr,
  ◌⊎◌,
}
use flow_pipe.Text.{Text, text_eq_refl}
use flow_pipe.Text.Decimal.{format_uint, u64_limit}
use flow_pipe.Proto.{FlowSpec}
use flow_pipe.Remote.{Result, ok, err, quiet, continue, ◌>>=◌}
use flow_pipe.Etcd.{passes}
use flow_pipe.Backend.{Backend, StoreError, modified_concurrently, get_key, commit}
use flow_pipe.Api.Keys.{active_key, version_spec_key}
use flow_pipe.Api.Flows.{
  next_version, unchanged, Prepared, prepare_version, commit_version, create_new_version,
}

pub next_version-bound :
    (active : Option Text) (next : ℕ) → next_version active ≡ ok next → next < u64_limit
unfolding next_version
next_version-bound none next h = ground arith
next_version-bound (some a) next h = ground arith

module _ (B : Backend) where
  -- What a prepared version holds.
  pub record Prepares (name : Text) (spec : FlowSpec) (active : Option Text) (p : Prepared)
      : Type 0 where
    pub next : ℕ
    pub bytes : Text
    pub is_next : next_version active ≡ ok next
    pub encodes : B.specs.marshal (record spec { version = next }) ≡ some bytes
    pub is_prepared : p ≡ record {
      compare = unchanged name active;
      puts = (version_spec_key name next, bytes) ∷ (active_key name, format_uint next) ∷ [];
      spec = record spec { version = next };
    }

  pub prepare_version-Prepares :
      (name : Text) (spec : FlowSpec) (active : Option Text) (p : Prepared)
      → prepare_version B name spec active ≡ ok p
      → Prepares name spec active p
  unfolding prepare_version
  prepare_version-Prepares name spec active p h = elim (next_cases (next_version active)) [
    | inl (e, bad) ↦ absurd (ground (arith, bad))
    | inr (next, good) ↦ elim (Option-cases (B.specs.marshal (record spec { version = next }))) [
      | inl bad ↦ absurd (ground (arith, good, bad))
      | inr (bytes, enc) ↦ record {
        next = next;
        bytes = bytes;
        is_next = good;
        encodes = enc;
        is_prepared = ground (arith, good, enc);
      }
    ]
  ]
    where
      next_cases :
          (r : Result StoreError ℕ) → ((e : StoreError) × (r ≡ err e)) ⊎ ((n : ℕ) × (r ≡ ok n))
      next_cases (ok n) = inr (n, refl)
      next_cases (err e) = inl (e, refl)

  -- A key that was just read passes the comparison.
  pub unchanged-passes :
      (name : Text) (s : B.etcd.Server)
      → passes (B.etcd.get s) (unchanged name (B.etcd.get s (active_key name))) ≡ true
  unfolding unchanged
  unchanged-passes name s = elim (Option-cases (B.etcd.get s (active_key name))) [
    | inl e ↦ rw (e, e)
    | inr (a, e) ↦ rw (e, e) (text_eq_refl a)
  ]

  pub commit_version-passes :
      (name : Text) (p : Prepared) (s : B.etcd.Server)
      → passes (B.etcd.get s) p.compare ≡ true
      → commit_version B name p (quiet s) ≡ (
        ok (record { name = name; version = p.spec.version; spec = some p.spec; status = none }),
        quiet (B.etcd.txn p.compare p.puts s).1,
      )
  unfolding ◌>>=◌ commit_version commit
  commit_version-passes name p s h = rw (B.etcd.txn-passes p.compare p.puts s ∙ h)

  pub commit_version-fails :
      (name : Text) (p : Prepared) (s : B.etcd.Server)
      → passes (B.etcd.get s) p.compare ≡ false
      → commit_version B name p (quiet s)
        ≡ (err (modified_concurrently name), quiet (B.etcd.txn p.compare p.puts s).1)
  unfolding ◌>>=◌ commit_version commit
  commit_version-fails name p s h = rw (B.etcd.txn-passes p.compare p.puts s ∙ h)

  pub create_new_version-quiet :
      (name : Text) (spec : FlowSpec) (s : B.etcd.Server)
      → create_new_version B name spec (quiet s)
        ≡ continue
            (prepare_version B name spec (B.etcd.get s (active_key name)))
            (commit_version B name)
            (quiet s)
  unfolding ◌>>=◌ create_new_version get_key
  create_new_version-quiet name spec s = refl

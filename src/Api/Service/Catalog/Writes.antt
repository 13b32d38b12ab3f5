-- ===== src/Api/Service/Catalog/Writes.antt =====
-- That the writes to etcd change the catalogue that it holds.
use flow_pipe.Prelude.{
  ℕ, ◌<◌, ◌≡◌, ◌∙◌, subst, Bool, true, false, Option, none, some, inl, inr, Bool-cases, ◌==◌, arith,
  if◌then◌else◌,
}
use flow_pipe.Text.{Text, text_eq, text_eq→eq, text_eq_refl, has_prefix}
use flow_pipe.Text.Decimal.{format_uint, parse_uint, parse_uint-format_uint, u64_limit}
use flow_pipe.Text.FilePath.Laws.{IsPlain}
use flow_pipe.Proto.{FlowSpec, Flow}
use flow_pipe.Remote.{World, quiet}
use flow_pipe.Backend.{Backend}
use flow_pipe.Api.Keys.{active_key, version_spec_key, status_key}
use flow_pipe.Api.Keys.Distinct.{
  active-eq-active, active-eq-version, active-eq-status, version-eq-active, version-eq-version,
  version-eq-status,
}
use flow_pipe.Api.Flows.{delete_flow}
use flow_pipe.Api.Flows.Created.{Wrote}
use flow_pipe.Api.Flows.Delete.{delete_flow_exact}
use flow_pipe.Api.Flows.Write.{next_version-bound}
use flow_pipe.Api.Service.Catalog.{Entry, Catalog, no_entry, set_entry, set_spec}
use flow_pipe.Api.Service.Catalog.Represents.{ReadsAs, Represents}

module _ (B : Backend) where
  -- From `s` to `t` the keys of one flow come to hold the entry `e`, and the others stay.
  record Sets (s t : B.etcd.Server) (name : Text) (e : Entry) : Type 0 where
    active_here : ReadsAs parse_uint (B.etcd.get t (active_key name)) e.active
    bound_here : (v : ℕ) → e.active ≡ some v → v < u64_limit
    spec_here :
        (v : ℕ)
        → v < u64_limit
        → ReadsAs B.specs.unmarshal (B.etcd.get t (version_spec_key name v)) (e.spec_of v)
    status_here : ReadsAs B.statuses.unmarshal (B.etcd.get t (status_key name)) e.status
    active_there :
        (n : Text)
        → IsPlain n
        → text_eq name n ≡ false
        → B.etcd.get t (active_key n) ≡ B.etcd.get s (active_key n)
    spec_there :
        (n : Text) (v : ℕ)
        → IsPlain n
        → v < u64_limit
        → text_eq name n ≡ false
        → B.etcd.get t (version_spec_key n v) ≡ B.etcd.get s (version_spec_key n v)
    status_there :
        (n : Text)
        → IsPlain n
        → text_eq name n ≡ false
        → B.etcd.get t (status_key n) ≡ B.etcd.get s (status_key n)

  module _ {s t : B.etcd.Server} {c : Catalog} (rep : Represents B s c) {name : Text} {e : Entry}
      (x : Sets s t name e) where
    -- A property of a flow's keys and its entry holds of all if it holds of both kinds.
    each :
        (P : Text → Entry → Type 0)
        → P name e
        → ((n : Text) → IsPlain n → text_eq name n ≡ false → P n (c n))
        → (n : Text) → IsPlain n
        → P n (set_entry name e c n)
    each P here there n pn = elim (Bool-cases (text_eq name n)) [
      | inl same ↦ rw same (subst (λ m. P m e) (text_eq→eq name n same) here)
      | inr other ↦ rw other (there n pn other)
    ]

    set-Represents : Represents B t (set_entry name e c)
    set-Represents = record {
      active_is =
          each (λ n f. ReadsAs parse_uint (B.etcd.get t (active_key n)) f.active) x.active_here
            (λ n pn other. rw (x.active_there n pn other) (rep.active_is n pn));
      bounded = λ n v pn.
          each (λ n f. f.active ≡ some v → v < u64_limit) (x.bound_here v)
            (λ n pn other. rep.bounded n v pn) n pn;
      spec_is = λ n v pn bv.
          each
            (λ n f. ReadsAs B.specs.unmarshal (B.etcd.get t (version_spec_key n v)) (f.spec_of v))
            (x.spec_here v bv)
            (λ n pn other. rw (x.spec_there n v pn bv other) (rep.spec_is n v pn bv)) n pn;
      status_is =
          each (λ n f. ReadsAs B.statuses.unmarshal (B.etcd.get t (status_key n)) f.status)
            x.status_here (λ n pn other. rw (x.status_there n pn other) (rep.status_is n pn));
    }

  module _ {s : B.etcd.Server} {c : Catalog} (rep : Represents B s c) {name : Text}
      (pm : IsPlain name) where
    abbrev pub with_version : ℕ → FlowSpec → Catalog
    with_version v spec =
        set_entry name
          (record (c name) { active = some v; spec_of = set_spec v spec (c name).spec_of }) c

    -- A version that was written is the catalogue's.
    pub added-Represents :
        {spec : FlowSpec} {f : Flow} {w : World B.etcd.Server} (x : Wrote B name spec s f w)
        → Represents B w.server (with_version x.next (record spec { version = x.next }))
    added-Represents {spec} {f} {w} x = set-Represents rep (record {
      active_here =
          rw (x.contents (active_key name), text_eq_refl (active_key name))
            (parse_uint-format_uint x.next bound);
      bound_here = λ v e. subst (λ u. u < u64_limit) (cc e) bound;
      spec_here = λ v bv.
          rw
            (
              x.contents (version_spec_key name v),
              active-eq-version pm pm v,
              version-eq-version pm pm x.next v bound bv,
              text_eq_refl name,
            )
            (spec_cases v bv (x.next == v));
      status_here =
          rw (x.contents (status_key name), active-eq-status pm pm, version-eq-status pm pm x.next)
            (rep.status_is name pm);
      active_there = λ n pn other.
          x.contents (active_key n)
          ∙ rw (active-eq-active pm pn, version-eq-active pm pn x.next, other);
      spec_there = λ n v pn bv other.
          x.contents (version_spec_key n v)
          ∙ rw (active-eq-version pm pn v, version-eq-version pm pn x.next v bound bv, other);
      status_there = λ n pn other.
          x.contents (status_key n) ∙ rw (active-eq-status pm pn, version-eq-status pm pn x.next);
    })
      where
        bound : x.next < u64_limit
        bound = next_version-bound (B.etcd.get s (active_key name)) x.next x.is_next

        spec_cases :
            (v : ℕ)
            → v < u64_limit
            → (b : Bool)
            → ReadsAs B.specs.unmarshal
                (if b then some x.bytes else B.etcd.get s (version_spec_key name v))
                (if b then some (record spec { version = x.next }) else (c name).spec_of v)
        spec_cases v bv true = B.specs.unmarshal-marshal _ x.bytes x.encodes
        spec_cases v bv false = rep.spec_is name v pm bv

    -- An active version that was put is the catalogue's.
    pub pointed-Represents :
        (v : ℕ)
        → v < u64_limit
        → Represents B
            (B.etcd.put (active_key name) (format_uint v) s)
            (set_entry name (record (c name) { active = some v }) c)
    pointed-Represents v bv = set-Represents rep (record {
      active_here =
          rw (put (active_key name), text_eq_refl (active_key name)) (parse_uint-format_uint v bv);
      bound_here = λ u e. subst (λ i. i < u64_limit) (cc e) bv;
      spec_here = λ u bu.
          rw (put (version_spec_key name u), active-eq-version pm pm u) (rep.spec_is name u pm bu);
      status_here = rw (put (status_key name), active-eq-status pm pm) (rep.status_is name pm);
      active_there = λ n pn other. put (active_key n) ∙ rw (active-eq-active pm pn, other);
      spec_there = λ n u pn bu other. put (version_spec_key n u) ∙ rw (active-eq-version pm pn u);
      status_there = λ n pn other. put (status_key n) ∙ rw (active-eq-status pm pn);
    })
      where
        put :
            (j : Text)
            → B.etcd.get (B.etcd.put (active_key name) (format_uint v) s) j
              ≡ (if text_eq (active_key name) j then some (format_uint v) else B.etcd.get s j)
        put j = B.etcd.get-put (active_key name) (format_uint v) s j

    -- What a deletion removes, the catalogue loses.
    pub removed-Represents :
        Represents B
          (delete_flow B name (quiet s)).1.server
          (λ m. if has_prefix name m then no_entry else c m)
    removed-Represents = record {
      active_is = λ n pn.
          rw (delete_flow_exact B name n s pm pn).0 (
            gone (λ o e. ReadsAs parse_uint o e.active) (has_prefix name n) tt
              (rep.active_is n pn));
      bounded = λ n v pn.
          gone (λ o e. e.active ≡ some v → v < u64_limit) {o = none} (has_prefix name n)
            (λ e. ground arith) (rep.bounded n v pn);
      spec_is = λ n v pn bv. rw ((delete_flow_exact B name n s pm pn).2 v) (
          gone (λ o e. ReadsAs B.specs.unmarshal o (e.spec_of v)) (has_prefix name n) tt
            (rep.spec_is n v pn bv));
      status_is = λ n pn. rw (delete_flow_exact B name n s pm pn).1 (
          gone (λ o e. ReadsAs B.statuses.unmarshal o e.status) (has_prefix name n) tt
            (rep.status_is n pn));
    }
      where
        gone :
            (P : Option Text → Entry → Type 0) {o : Option Text} {e : Entry} (b : Bool)
            → P none no_entry
            → P o e
            → P (if b then none else o) (if b then no_entry else e)
        gone P true h k = h
        gone P false h k = k

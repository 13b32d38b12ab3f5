-- ===== src/Api/Flows/Exclusion.antt =====
-- Writers of one flow exclude each other: the comparison in the transaction of createNewVersion.
use flow_pipe.Prelude.{
  ℕ, ◌+◌, ◌%◌, ◌≡◌, ap, subst, sym, ◌∙◌, false, Option, none, some, arith, Bool-cases, inl, inr,
}
use flow_pipe.Text.{Text, text_eq, text_eq→eq}
use flow_pipe.Text.Decimal.{format_uint, parse_uint, u64_limit, parse_uint-format_uint}
use flow_pipe.Proto.{FlowSpec, Flow}
use flow_pipe.Remote.{ok, err, World, quiet}
use flow_pipe.Etcd.{passes}
use flow_pipe.Backend.{Backend, modified_concurrently}
use flow_pipe.Api.Keys.{active_key}
use flow_pipe.Api.Flows.{next_version, unchanged, Prepared, prepare_version, commit_version}
use flow_pipe.Api.Flows.Write.{next_version-bound, prepare_version-Prepares, commit_version-fails}
use flow_pipe.Api.Flows.Created.{prepared-Wrote, active-Wrote}

next-ne-prev : (prev : ℕ) → (prev + 1) % u64_limit ≡ prev → ⊥
next-ne-prev prev e = omega arith

format_next-fresh :
    (a : Text) (next : ℕ) → next_version (some a) ≡ ok next → text_eq (format_uint next) a ≡ false
format_next-fresh a next h = elim (Bool-cases (text_eq (format_uint next) a)) [
  | inr differ ↦ differ
  | inl same ↦
      let parsed : parse_uint a ≡ some next =
        ap parse_uint (sym (text_eq→eq (format_uint next) a same))
        ∙ parse_uint-format_uint next (next_version-bound (some a) next h) in
      absurd (next-ne-prev next (unfold next_version in ground (arith, parsed)))
]

-- The next version never passes the comparison with the version that it came from.
next_version-stale :
    (contents : Text → Option Text) (name : Text) (active : Option Text) (next : ℕ)
    → next_version active ≡ ok next
    → contents (active_key name) ≡ some (format_uint next)
    → passes contents (unchanged name active) ≡ false
unfolding unchanged
next_version-stale contents name none next h e = rw e
next_version-stale contents name (some a) next h e = rw e (format_next-fresh a next h)

module _ (B : Backend) where
  stale :
      (name : Text) (q : Prepared) (s : B.etcd.Server)
      → passes (B.etcd.get s) q.compare ≡ false
      → ((commit_version B name q (quiet s)).0 ≡ err (modified_concurrently name))
        × ((j : Text) → B.etcd.get (commit_version B name q (quiet s)).1.server j ≡ B.etcd.get s j)
  stale name q s h = (
    ap (λ x. x.0) (commit_version-fails B name q s h),
    (λ j.
        ap (λ x. B.etcd.get x.1.server j) (commit_version-fails B name q s h)
        ∙ B.etcd.get-txn q.compare q.puts s j
        ∙ rw h),
  )

  -- Two writers that read the same active version of a flow and prepared a version each:
  -- once the first has committed, with no network fault, the commit of the second fails with
  -- "modified concurrently" and changes no key, whatever their specs.
  pub commit_version_excludes :
      (name : Text) (spec spec' : FlowSpec) (s : B.etcd.Server) (p q : Prepared) (f : Flow)
      (w : World B.etcd.Server)
      → prepare_version B name spec (B.etcd.get s (active_key name)) ≡ ok p
      → prepare_version B name spec' (B.etcd.get s (active_key name)) ≡ ok q
      → commit_version B name p (quiet s) ≡ (ok f, w)
      → ((commit_version B name q w).0 ≡ err (modified_concurrently name))
        × ((j : Text) → B.etcd.get (commit_version B name q w).1.server j ≡ B.etcd.get w.server j)
  commit_version_excludes name spec spec' s p q f w hp hq e =
      let c = prepared-Wrote B name spec s p hp e in
      let r = prepare_version-Prepares B name spec' (B.etcd.get s (active_key name)) q hq in
      let active = B.etcd.get s (active_key name) in
      let same : c.next ≡ r.next = cc (c.is_next, r.is_next) in
      let passes_not : passes (B.etcd.get w.server) q.compare ≡ false = rw r.is_prepared (
        next_version-stale (B.etcd.get w.server) name active r.next r.is_next
          (active-Wrote B c ∙ ap (λ v. some (format_uint v)) same)) in
      subst
        (λ u.
          ((commit_version B name q u).0 ≡ err (modified_concurrently name))
          × ((j : Text)
              → B.etcd.get (commit_version B name q u).1.server j ≡ B.etcd.get w.server j))
        (sym c.net) (stale name q w.server passes_not)

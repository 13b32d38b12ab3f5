-- ===== src/Api/Flows/Consistency/Methods.antt =====
-- Each method that writes keeps the flows consistent, whatever the network does to its calls.
use flow_pipe.Prelude.{◌≡◌, refl, sym, ◌∙◌, Bool, true, false, Option, none, some, if◌then◌else◌}
use flow_pipe.Text.{Text, has_prefix}
use flow_pipe.Text.FilePath.{is_empty}
use flow_pipe.Text.FilePath.Laws.{IsPlain}
use flow_pipe.Proto.{FlowSpec}
use flow_pipe.Remote.{ok}
use flow_pipe.Remote.Laws.{
  Keeps, Keeps-request, Keeps-bind, Keeps-raise, keeps_rules, Keeps-if, Keeps-lift,
}
use flow_pipe.Backend.{Backend, get_key, delete_keys, commit}
use flow_pipe.Api.Keys.{active_key, version_spec_key, flow_prefix}
use flow_pipe.Api.Keys.Layout.{active_key-IsKey, version_spec_key-IsKey}
use flow_pipe.Api.Flows.{
  Prepared, prepare_version, commit_version, create_new_version, create_flow, update_flow,
  delete_flow,
}
use flow_pipe.Api.Flows.Write.{prepare_version-Prepares}
use flow_pipe.Api.Flows.Delete.{covers}
use flow_pipe.Api.Flows.Consistency.{
  AreConsistent, IsConsistent, commit-IsConsistent, AreConsistent-cong,
}

module _ (B : Backend) where
  commit_version-IsConsistent :
      (m : Text) (spec : FlowSpec) (active : Option Text) (p : Prepared)
      → IsPlain m
      → spec.name ≡ m
      → prepare_version B m spec active ≡ ok p
      → Keeps (IsConsistent B) (commit_version B m p)
  unfolding commit_version
  commit_version-IsConsistent m spec active p pm named e =
      Keeps-bind (commit B p.compare p.puts) _
        (commit-IsConsistent B m spec active p pm named
          (prepare_version-Prepares B m spec active p e))
        (λ b. search keeps_rules)

  create_new_version-IsConsistent :
      (m : Text) (spec : FlowSpec)
      → IsPlain m
      → spec.name ≡ m
      → Keeps (IsConsistent B) (create_new_version B m spec)
  unfolding create_new_version get_key
  create_new_version-IsConsistent m spec pm named =
      Keeps-bind (get_key B (active_key m)) _ (Keeps-request _ _ (λ s h. h)) λ active.
        Keeps-lift (prepare_version B m spec active) (commit_version B m)
          λ p e. commit_version-IsConsistent m spec active p pm named e

  -- CreateFlow of a spec with a plain name keeps the flows consistent, however its calls end.
  pub create_flow-IsConsistent :
      (spec : FlowSpec) → IsPlain spec.name → Keeps (IsConsistent B) (create_flow B (some spec))
  unfolding create_flow
  create_flow-IsConsistent spec pm =
      Keeps-if (is_empty spec.name) _ _ (Keeps-raise _)
        (create_new_version-IsConsistent spec.name spec pm refl)

  -- UpdateFlow of a plain name keeps the flows consistent, however its calls end.
  pub update_flow-IsConsistent :
      (m : Text) (spec : Option FlowSpec)
      → IsPlain m
      → Keeps (IsConsistent B) (update_flow B m spec)
  unfolding update_flow
  update_flow-IsConsistent m none pm = Keeps-raise _
  update_flow-IsConsistent m (some spec) pm =
      create_new_version-IsConsistent m (record spec { name = m }) pm refl

  deleted-AreConsistent :
      (m : Text) (s : B.etcd.Server)
      → IsPlain m
      → AreConsistent B (B.etcd.get s)
      → AreConsistent B (λ j. if has_prefix (flow_prefix m) j then none else B.etcd.get s j)
  deleted-AreConsistent m s pm c = record {
    stored = λ n v b pn bv h.
        c.stored n v b pn bv (present (has_prefix (flow_prefix m) (version_spec_key n v)) h).1;
    pointed = λ n a pn h.
        let kept = present (has_prefix (flow_prefix m) (active_key n)) h in
        let p = c.pointed n a pn kept.1 in
        record {
          version = p.version;
          bound = p.bound;
          parses = p.parses;
          bytes = p.bytes;
          is_stored =
              rw
                (covers pm (version_spec_key-IsKey pn p.version)
                  ∙ sym (covers pm (active_key-IsKey pn))
                  ∙ kept.0)
                p.is_stored;
        };
  }
    where
      present :
          (b : Bool) {o : Option Text} {a : Text}
          → (if b then none else o) ≡ some a
          → (b ≡ false) × (o ≡ some a)
      present true h = cc
      present false h = (refl, h)

  -- DeleteFlow of a plain name keeps the flows consistent, however its call ends.
  pub delete_flow-IsConsistent : (m : Text) → IsPlain m → Keeps (IsConsistent B) (delete_flow B m)
  unfolding delete_flow delete_keys
  delete_flow-IsConsistent m pm = Keeps-request _ _ λ s c.
      AreConsistent-cong B _ _ (B.etcd.get-delete_prefix (flow_prefix m) s)
        (deleted-AreConsistent m s pm c)

-- ===== src/Api/Flows/Consistency/Rollback.antt =====
-- RollbackFlow keeps the flows consistent: it points only at a version that is stored.
use flow_pipe.Prelude.{
  ℕ, ◌<◌, ◌≡◌, refl, subst, sym, ◌∙◌, true, false, Option, none, some, List, [], ◌∷◌, if◌then◌else◌,
  Bool-cases, inl, inr, ◌⊎◌,
}
use flow_pipe.Text.{Text, text_eq, text_eq→eq}
use flow_pipe.Text.Decimal.{format_uint, u64_limit, parse_uint-format_uint}
use flow_pipe.Text.FilePath.Laws.{IsPlain}
use flow_pipe.Proto.{Flow}
use flow_pipe.Remote.{
  Outcome, served, refused, lost, ok, err, World, request, continue, or_else, lift, Remote, ◌>>=◌,
}
use flow_pipe.Remote.Laws.{Keeps, Keeps-request, Keeps-bind, keeps_rules}
use flow_pipe.Backend.{Backend, StoreError, get_key, put_key, version_missing}
use flow_pipe.Api.Keys.{active_key, version_spec_key}
use flow_pipe.Api.Keys.Distinct.{active-eq-active, active-eq-version}
use flow_pipe.Api.Flows.{get_flow, get_flow_status, rollback_flow}
use flow_pipe.Api.Flows.Consistency.{Points, IsConsistent, AreConsistent-cong}

module _ (B : Backend) where
  pub get_key-Keeps : {P : B.etcd.Server → Type 0} (k : Text) → Keeps P (get_key B k)
  unfolding get_key
  get_key-Keeps k = Keeps-request _ _ (λ s h. h)

  -- GetFlow keeps whatever is true of the server.
  pub get_flow-Keeps : {P : B.etcd.Server → Type 0} (name : Text) → Keeps P (get_flow B name)
  unfolding get_flow get_flow_status
  get_flow-Keeps name = search (keeps_rules, get_key-Keeps) depth 20

  -- A read returns what the server holds, or fails.
  get_key_cases :
      (k : Text) (w : World B.etcd.Server)
      → ((e : StoreError) × ((get_key B k w).0 ≡ err e))
        ⊎ ((get_key B k w).0 ≡ ok (B.etcd.get w.server k))
  unfolding get_key request
  get_key_cases k w = reply w.net
    where
      reply :
          (net : List Outcome)
          → let u : World B.etcd.Server = record { server = w.server; net = net } in
            ((e : StoreError) × ((get_key B k u).0 ≡ err e))
            ⊎ ((get_key B k u).0 ≡ ok (B.etcd.get w.server k))
      reply [] = inr refl
      reply (served ∷ net) = inr refl
      reply (refused ∷ net) = inl (StoreError.unavailable, refl)
      reply (lost ∷ net) = inl (StoreError.unavailable, refl)

  module _ {m : Text} (pm : IsPlain m) {v : ℕ} (bound : v < u64_limit) (bytes : Text) where
    -- Consistent, and the version is stored.
    abbrev IsReady : B.etcd.Server → Type 0
    IsReady s = IsConsistent B s × (B.etcd.get s (version_spec_key m v) ≡ some bytes)

    repointed : B.etcd.Server → Text → Option Text
    repointed s j = if text_eq (active_key m) j then some (format_uint v) else B.etcd.get s j

    repointed-pointed :
        (s : B.etcd.Server)
        → IsReady s
        → (n a : Text) → IsPlain n
        → repointed s (active_key n) ≡ some a
        → Points B (repointed s) n a
    unfolding repointed
    repointed-pointed s r n a pn h =
        decide (Bool-cases (text_eq m n)) (rw (active-eq-active pm pn) at h)
      where
        decide :
            (text_eq m n ≡ true) ⊎ (text_eq m n ≡ false)
            → (if text_eq m n then some (format_uint v) else B.etcd.get s (active_key n)) ≡ some a
            → Points B (repointed s) n a
        decide (inl same) e =
            let text : a ≡ format_uint v = cc (rw same at e) in
            record {
              version = v;
              bound = bound;
              parses = rw text (parse_uint-format_uint v bound);
              bytes = bytes;
              is_stored = rw (active-eq-version pm pn v) (
                  subst (λ k. B.etcd.get s (version_spec_key k v) ≡ some bytes)
                    (text_eq→eq m n same) r.1);
            }
        decide (inr other) e =
            let p = r.0.pointed n a pn (rw other at e) in
            record {
              version = p.version;
              bound = p.bound;
              parses = p.parses;
              bytes = p.bytes;
              is_stored = rw (active-eq-version pm pn p.version) p.is_stored;
            }

    put-IsReady :
        (s : B.etcd.Server) → IsReady s → IsReady (B.etcd.put (active_key m) (format_uint v) s)
    unfolding repointed
    put-IsReady s r =
        let put = B.etcd.get-put (active_key m) (format_uint v) s in
        (
          AreConsistent-cong B (repointed s) _ put (record {
            stored = λ n u b pn bu h. r.0.stored n u b pn bu (rw (active-eq-version pm pn u) at h);
            pointed = repointed-pointed s r;
          }),
          put (version_spec_key m v) ∙ rw (active-eq-version pm pm v) r.1,
        )

    IsReady-Keeps : Keeps IsReady (put_key B (active_key m) (format_uint v) >>= λ _. get_flow B m)
    unfolding put_key
    IsReady-Keeps =
        Keeps-bind (put_key B (active_key m) (format_uint v)) _ (Keeps-request _ _ put-IsReady)
          (λ _. get_flow-Keeps m)

  -- RollbackFlow of a plain name to a uint64 version keeps the flows consistent, however its calls
  -- end.
  pub rollback_flow-IsConsistent :
      (m : Text) (v : ℕ) → IsPlain m → v < u64_limit → Keeps (IsConsistent B) (rollback_flow B m v)
  unfolding rollback_flow ◌>>=◌
  rollback_flow-IsConsistent m v pm bound = record {
    after = λ w h. replied w h (get_key_cases key w);
  }
    where
      key : Text
      key = version_spec_key m v

      rest : Option Text → Remote B.etcd.Server StoreError Flow
      rest stored = lift (or_else stored (version_missing v)) >>= λ _.
          put_key B (active_key m) (format_uint v) >>= λ _. get_flow B m

      read :
          (w : World B.etcd.Server)
          → IsConsistent B w.server
          → IsConsistent B (get_key B key w).1.server
            × (B.etcd.get (get_key B key w).1.server key ≡ B.etcd.get w.server key)
      read w h =
          (get_key-Keeps {P = λ s. IsConsistent B s × (B.etcd.get s key ≡ B.etcd.get w.server key)}
              key).after
            w (h, refl)

      found :
          (w : World B.etcd.Server) (o : Option Text)
          → IsConsistent B w.server
          → B.etcd.get w.server (version_spec_key m v) ≡ o
          → IsConsistent B
              (continue
                (or_else o (version_missing v))
                (λ _. put_key B (active_key m) (format_uint v) >>= λ _. get_flow B m)
                w).1.server
      found w none h e = h
      found w (some bytes) h e = ((IsReady-Keeps pm bound bytes).after w (h, e)).0

      replied :
          (w : World B.etcd.Server)
          → IsConsistent B w.server
          → ((x : StoreError) × ((get_key B key w).0 ≡ err x))
            ⊎ ((get_key B key w).0 ≡ ok (B.etcd.get w.server key))
          → IsConsistent B (rollback_flow B m v w).1.server
      replied w h (inl (x, e)) =
          subst (λ r. IsConsistent B (continue r rest (get_key B key w).1).1.server) (sym e)
            (read w h).0
      replied w h (inr e) =
          subst (λ r. IsConsistent B (continue r rest (get_key B key w).1).1.server) (sym e)
            (found (get_key B key w).1 (B.etcd.get w.server key) (read w h).0 (read w h).1)

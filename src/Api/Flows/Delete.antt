-- ===== src/Api/Flows/Delete.antt =====
-- What DeleteFlow removes: its prefix has no slash behind the flow's name.
use flow_pipe.Prelude.{
  ℕ, ◌≡◌, refl, ap, ◌∙◌, true, none, List, [], ◌∷◌, ◌++◌, append-nil, arith, if◌then◌else◌, ◌==◌,
  ◌&&◌,
}
use flow_pipe.Text.{Text, codes, has_prefix}
use flow_pipe.Text.FilePath.{slash, path_of, path_join}
use flow_pipe.Text.FilePath.Laws.{IsPlain, NoSlash}
use flow_pipe.Remote.{err, quiet}
use flow_pipe.Backend.{Backend, flow_not_found, delete_keys}
use flow_pipe.Api.Keys.{flow_prefix, active_key, version_spec_key, status_key}
use flow_pipe.Api.Keys.Layout.{
  IsKey, under_root, flow_prefix-IsKey, active_key-IsKey, version_spec_key-IsKey, status_key-IsKey,
}
use flow_pipe.Api.Flows.{delete_flow, get_flow}
use flow_pipe.Api.Flows.Read.{get_flow-missing}

has_prefix-append_left : (p s t : Text) → has_prefix (p ++ s) (p ++ t) ≡ has_prefix s t
unfolding has_prefix
has_prefix-append_left [] s t = refl
has_prefix-append_left (x ∷ p) s t = ground (arith, has_prefix-append_left p s t)

-- A text without a slash does not reach past one.
has_prefix-slash : (m n t : Text) → NoSlash m → has_prefix m (n ++ slash ∷ t) ≡ has_prefix m n
unfolding has_prefix
has_prefix-slash [] n t h = refl
has_prefix-slash (x ∷ m) [] t h = rw h.0
has_prefix-slash (x ∷ m) (y ∷ n) t h = ap (λ b. x == y && b) (has_prefix-slash m n t h.1)

-- The prefix of `m` covers a key of `n` exactly if `m` is a prefix of `n`.
pub covers :
    {m n k e : Text} {es : List Text}
    → IsPlain m
    → IsKey k (n ∷ e ∷ es)
    → has_prefix (flow_prefix m) k ≡ has_prefix m n
covers {m} {n} {k} {e} {es} pm key =
    ap (has_prefix (flow_prefix m)) key.spells
    ∙ ap (λ p. has_prefix p (path_of (under_root (n ∷ e ∷ es))))
        ((flow_prefix-IsKey pm).spells ∙ ap (λ s. codes "/flowpipe/flows/" ++ s) (append-nil m))
    ∙ has_prefix-append_left (codes "/flowpipe/flows/") m (n ++ (slash ∷ (e ++ path_of es)))
    ∙ has_prefix-slash m n (e ++ path_of es) pm.no_slash

-- The prefix of the empty name covers whatever lies under the root.
covers_root : (ss : List Text) → has_prefix (flow_prefix []) (path_of (under_root ss)) ≡ true
unfolding flow_prefix has_prefix path_join
covers_root ss = refl

module _ (B : Backend) where
  -- DeleteFlow of a plain name `m`, served without a fault, removes the active version, the status
  -- and every version of a flow with a plain name `n` if `m` is a prefix of `n`, and leaves all of
  -- them as they were if it is not.
  pub delete_flow_exact :
      (m n : Text) (s : B.etcd.Server)
      → IsPlain m
      → IsPlain n
      → let after = B.etcd.get (delete_flow B m (quiet s)).1.server in
        (after (active_key n) ≡ (if has_prefix m n then none else B.etcd.get s (active_key n)))
        × (after (status_key n) ≡ (if has_prefix m n then none else B.etcd.get s (status_key n)))
        × ((v : ℕ)
            → after (version_spec_key n v)
              ≡ (if has_prefix m n then none else B.etcd.get s (version_spec_key n v)))
  unfolding delete_flow delete_keys
  delete_flow_exact m n s pm pn = (
    B.etcd.get-delete_prefix (flow_prefix m) s (active_key n)
        ∙ rw (covers pm (active_key-IsKey pn)),
    B.etcd.get-delete_prefix (flow_prefix m) s (status_key n)
        ∙ rw (covers pm (status_key-IsKey pn)),
    (λ v.
        B.etcd.get-delete_prefix (flow_prefix m) s (version_spec_key n v)
        ∙ rw (covers pm (version_spec_key-IsKey pn v))),
  )

  -- DeleteFlow with an empty name, served without a fault, leaves no flow with a plain name: GetFlow
  -- reports "not found" for each.
  delete_flow_empty_name :
      (n : Text) (s : B.etcd.Server)
      → IsPlain n
      → (get_flow B n (delete_flow B [] (quiet s)).1).0 ≡ err (flow_not_found n)
  unfolding delete_flow delete_keys
  delete_flow_empty_name n s pn =
      ap (λ x. x.0)
        (get_flow-missing B n (B.etcd.delete_prefix (flow_prefix []) s)
          (B.etcd.get-delete_prefix (flow_prefix []) s (active_key n) ∙ rw covered))
    where
      covered : has_prefix (flow_prefix []) (active_key n) ≡ true
      covered = rw (active_key-IsKey pn).spells (covers_root (n ∷ codes "active" ∷ []))

-- ===== src/Controller/Flows/Watch.antt =====
-- The events that the controller derives from etcd's.
use flow_pipe.Prelude.{◌≡◌, refl, ap, ◌∙◌, Bool, true, false, some, [], ◌∷◌, ◌++◌, arith}
use flow_pipe.Text.{Text, codes, text_eq_refl, has_suffix}
use flow_pipe.Text.FilePath.{path_base, path_dir, path_of}
use flow_pipe.Text.FilePath.Laws.{IsPlain, path_of-append, path_dir-path_of, path_base-path_of}
use flow_pipe.Proto.{FlowSpec, Flow}
use flow_pipe.Remote.{ok, World, quiet, ◌>>=◌}
use flow_pipe.Backend.{Backend}
use flow_pipe.Api.Keys.{active_key}
use flow_pipe.Api.Keys.Layout.{under_root, under_root-IsPlain, active_key-IsKey}
use flow_pipe.Api.Flows.{update_flow}
use flow_pipe.Controller.Flows.{
  watched_name, WatchEventType, watch_added, watch_updated, event_put, bare_flow, get_active_flow,
  build_watch_event,
}
use flow_pipe.Controller.Flows.Shared.{get_active_flow-update_flow}

has_suffix-append : (s t : Text) → has_suffix t (s ++ t) ≡ true
unfolding has_suffix
has_suffix-append [] [] = ground (arith, text_eq_refl [])
has_suffix-append [] (y ∷ t) = ground (arith, text_eq_refl (y ∷ t))
has_suffix-append (x ∷ s) t = ground (arith, has_suffix-append s t)

module _ {name : Text} (plain : IsPlain name) where
  -- The name that is read off an active key is the name that it was made of.
  pub watched_name-active_key : watched_name (active_key name) ≡ name
  unfolding watched_name
  watched_name-active_key =
      let key = active_key-IsKey plain in
      let parents = under_root-IsPlain (name ∷ []) (plain, tt) in
      ap (λ k. path_base (path_dir k)) key.spells
      ∙ ap path_base (
          path_dir-path_of (codes "flowpipe") (codes "flows" ∷ name ∷ []) (codes "active") parents
            key.plain.1.0.no_slash)
      ∙ path_base-path_of (under_root []) name (under_root-IsPlain [] tt) plain

  pub active_key-IsActive : has_suffix (codes "/active") (active_key name) ≡ true
  active_key-IsActive =
      ap (has_suffix (codes "/active")) (
        (active_key-IsKey plain).spells
        ∙ path_of-append (under_root (name ∷ [])) (codes "active" ∷ []))
      ∙ has_suffix-append (path_of (under_root (name ∷ []))) (codes "/active")

abbrev put_type : Bool → WatchEventType
put_type true = watch_added
put_type false = watch_updated

module _ (B : Backend) where
  -- After an UpdateFlow of the API server that succeeded on a plain flow name with no network fault,
  -- the controller turns etcd's event of the active key into an event that bears the flow's name and
  -- the spec that UpdateFlow returned, "added" for a new key and "updated" otherwise.
  pub build_watch_event-update_flow :
      (name : Text) (spec : FlowSpec) (s : B.etcd.Server) (f : Flow) (w : World B.etcd.Server)
      (created : Bool)
      → IsPlain name
      → update_flow B name (some spec) (quiet s) ≡ (ok f, w)
      → build_watch_event B
          (get_active_flow B)
          (some (record { type = event_put created; key = active_key name }))
          w
        ≡ (ok (some (record { type = put_type created; flow = bare_flow name f.spec })), w)
  unfolding build_watch_event ◌>>=◌
  build_watch_event-update_flow name spec s f w true plain e =
      rw
        (
          active_key-IsActive plain,
          watched_name-active_key plain,
          get_active_flow-update_flow B name spec s f w plain e,
        )
        refl
  build_watch_event-update_flow name spec s f w false plain e =
      rw
        (
          active_key-IsActive plain,
          watched_name-active_key plain,
          get_active_flow-update_flow B name spec s f w plain e,
        )
        refl

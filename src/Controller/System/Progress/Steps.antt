-- ===== src/Controller/System/Progress/Steps.antt =====
-- Each step keeps account of every flow.
use flow_pipe.Prelude.{
  ◌≡◌, refl, true, ap, sym, ◌∙◌, false, some, Bool-cases, inl, inr, [], ◌∷◌, ◌++◌, All-append,
  Elem-append_left, Elem-append_right,
}
use flow_pipe.Text.{Text, text_eq, text_eq→eq}
use flow_pipe.Text.FilePath.Laws.{IsPlain}
use flow_pipe.Backend.{Backend}
use flow_pipe.Controller.Kube.{Kube}
use flow_pipe.Controller.RateLimiting.{RateLimiting}
use flow_pipe.Controller.System.{State, view, mark}
use flow_pipe.Controller.System.Progress.{
  Accounted, overlooked, announced, waiting, fresh, failed, settled, IsLive,
}

module _ (Q : RateLimiting) (B : Backend) (K : Kube) where
  abbrev pub written : Text → B.etcd.Server → State Q B K → State Q B K
  written name s st = record st {
    systems = record st.systems { store = record st.systems.store { server = s } };
    events = st.events ++ name ∷ [];
  }

  write-Accounted :
      (st : State Q B K) (name : Text) (s : B.etcd.Server) (m : Text)
      → (text_eq name m ≡ false → view Q B K s m ≡ view Q B K st.systems.store.server m)
      → Accounted Q B K st m
      → Accounted Q B K (written name s st) m
  write-Accounted st name s m same a = elim (Bool-cases (text_eq name m)) [
    | inl e ↦
        announced (Elem-append_right m st.events (name ∷ []) (inl (sym (text_eq→eq name m e))))
    | inr e ↦ others (same e) a
  ]
    where
      others :
          view Q B K s m ≡ view Q B K st.systems.store.server m
          → Accounted Q B K st m
          → Accounted Q B K (written name s st) m
      others v (overlooked h) = overlooked h
      others v (announced h) = announced (Elem-append_left m st.events (name ∷ []) h)
      others v (waiting h) = waiting h
      others v (fresh h) = fresh (h ∙ ap some (sym v))
      others v (failed e h) = failed e h
      others v (settled h i) = settled h (i ∙ ap some (sym v))

  pub write-IsLive :
      (st : State Q B K) (name : Text) (s : B.etcd.Server)
      → IsPlain name
      → ((m : Text)
          → IsPlain m
          → text_eq name m ≡ false
          → view Q B K s m ≡ view Q B K st.systems.store.server m)
      → IsLive Q B K st
      → IsLive Q B K (written name s st)
  write-IsLive st name s pn same l = record {
    opened = l.opened;
    working = l.working;
    plain_events = All-append IsPlain st.events (name ∷ []) l.plain_events (pn, tt);
    plain_waits = l.plain_waits;
    plain_works = l.plain_works;
    accounted = λ m pm. write-Accounted st name s m (same m pm) (l.accounted m pm);
  }

  -- A change that no watch reports.
  abbrev unseen : Text → B.etcd.Server → State Q B K → State Q B K
  unseen name s st = record st {
    systems = record st.systems { store = record st.systems.store { server = s } };
    missed = mark Q B K name true st.missed;
  }

  unseen-Accounted :
      (st : State Q B K) (name : Text) (s : B.etcd.Server) (m : Text)
      → text_eq name m ≡ false
      → view Q B K s m ≡ view Q B K st.systems.store.server m
      → Accounted Q B K st m
      → Accounted Q B K (unseen name s st) m
  unseen-Accounted st name s m d v (overlooked h) = overlooked (rw d h)
  unseen-Accounted st name s m d v (announced h) = announced h
  unseen-Accounted st name s m d v (waiting h) = waiting h
  unseen-Accounted st name s m d v (fresh h) = fresh (h ∙ ap some (sym v))
  unseen-Accounted st name s m d v (failed e h) = failed e h
  unseen-Accounted st name s m d v (settled h i) = settled h (i ∙ ap some (sym v))

  pub unseen-IsLive :
      (st : State Q B K) (name : Text) (s : B.etcd.Server)
      → ((m : Text)
          → IsPlain m
          → text_eq name m ≡ false
          → view Q B K s m ≡ view Q B K st.systems.store.server m)
      → IsLive Q B K st
      → IsLive Q B K (unseen name s st)
  unseen-IsLive st name s same l = record {
    opened = l.opened;
    working = l.working;
    plain_events = l.plain_events;
    plain_waits = l.plain_waits;
    plain_works = l.plain_works;
    accounted = λ m pm. elim (Bool-cases (text_eq name m)) [
      | inl e ↦ overlooked (rw e refl)
      | inr e ↦ unseen-Accounted st name s m e (same m pm e) (l.accounted m pm)
    ];
  }

  pub opened-IsLive :
      (st : State Q B K) → IsLive Q B K st → IsLive Q B K (record st { watching = true })
  opened-IsLive st l = record {
    opened = l.opened;
    working = l.working;
    plain_events = l.plain_events;
    plain_waits = l.plain_waits;
    plain_works = l.plain_works;
    accounted = λ m pm. elim (l.accounted m pm) [
      | overlooked h ↦ overlooked h
      | announced h ↦ announced h
      | waiting h ↦ waiting h
      | fresh h ↦ fresh h
      | failed e h ↦ failed e h
      | settled h i ↦ settled h i
    ];
  }

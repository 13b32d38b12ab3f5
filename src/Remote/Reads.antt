-- ===== src/Remote/Reads.antt =====
-- Blocks of calls that only read: where one succeeds on a faulty network, it returns what it returns
-- on a network without faults, and the server is what it was.
use flow_pipe.Prelude.{◌≡◌, refl, ap, ◌∙◌, subst, List, [], ◌∷◌}
use flow_pipe.Remote.{
  Result, ok, err, Outcome, served, refused, lost, World, quiet, Remote, request, continue, ◌>>=◌,
  pure, lift,
}

pub record Reads {S E A : Type 0} (m : Remote S E A) : Type 0 where
  pub keeps : (w : World S) → (m w).1.server ≡ w.server
  pub calm : (s : S) → (m (quiet s)).1 ≡ quiet s
  pub agrees : (w : World S) (a : A) → (m w).0 ≡ ok a → (m (quiet w.server)).0 ≡ ok a

module _ {S E A : Type 0} where
  pub Reads-request : (g : S → A) (e : E) → Reads (request (λ s. (g s, s)) e)
  unfolding request
  Reads-request g e = record {
    keeps = λ w. kept w.server w.net;
    calm = λ s. refl;
    agrees = λ w a h. agreed w.server w.net a h;
  }
    where
      kept :
          (s : S) (net : List Outcome)
          → (request (λ s. (g s, s)) e (record { server = s; net = net })).1.server ≡ s
      kept s [] = refl
      kept s (served ∷ net) = refl
      kept s (refused ∷ net) = refl
      kept s (lost ∷ net) = refl

      agreed :
          (s : S) (net : List Outcome) (a : A)
          → (request (λ s. (g s, s)) e (record { server = s; net = net })).0 ≡ ok a
          → ◌≡◌ {A = Result E A} (ok (g s)) (ok a)
      agreed s [] a h = h
      agreed s (served ∷ net) a h = h
      agreed s (refused ∷ net) a h = cc
      agreed s (lost ∷ net) a h = cc

  pub Reads-pure : (a : A) → Reads {S = S} {E = E} (pure a)
  unfolding pure
  Reads-pure a = record { keeps = λ w. refl; calm = λ s. refl; agrees = λ w b h. h }

  pub Reads-lift : (r : Result E A) → Reads {S = S} (lift r)
  unfolding lift
  Reads-lift r = record { keeps = λ w. refl; calm = λ s. refl; agrees = λ w b h. h }

module _ {S E A B : Type 0} where
  continue-keeps :
      (r : Result E A) (f : A → Remote S E B) (w : World S)
      → ((a : A) → Reads (f a))
      → (continue r f w).1.server ≡ w.server
  continue-keeps (ok a) f w h = (h a).keeps w
  continue-keeps (err e) f w h = refl

  continue-calm :
      (r : Result E A) (f : A → Remote S E B) (s : S)
      → ((a : A) → Reads (f a))
      → (continue r f (quiet s)).1 ≡ quiet s
  continue-calm (ok a) f s h = (h a).calm s
  continue-calm (err e) f s h = refl

  pub Reads-bind :
      (m : Remote S E A) (f : A → Remote S E B)
      → Reads m
      → ((a : A) → Reads (f a))
      → Reads (m >>= f)
  unfolding ◌>>=◌
  Reads-bind m f rm rf = record {
    keeps = λ w. continue-keeps (m w).0 f (m w).1 rf ∙ rm.keeps w;
    calm = λ s.
        ap (λ w. (continue (m (quiet s)).0 f w).1) (rm.calm s)
        ∙ continue-calm (m (quiet s)).0 f s rf;
    agrees = λ w b h. agreed w b (m w).0 refl h;
  }
    where
      agreed :
          (w : World S) (b : B) (r : Result E A)
          → (m w).0 ≡ r
          → (continue r f (m w).1).0 ≡ ok b
          → (continue (m (quiet w.server)).0 f (m (quiet w.server)).1).0 ≡ ok b
      agreed w b (err e) er h = cc
      agreed w b (ok a) er h =
          rw (rm.agrees w a er, rm.calm w.server)
            (subst (λ s. (f a (quiet s)).0 ≡ ok b) (rm.keeps w) ((rf a).agrees (m w).1 b h))

-- ===== src/Remote/Succeeds.antt =====
-- Rules for sequences of calls that succeed where no call fails.
use flow_pipe.Prelude.{◌≡◌, refl, ap, ◌∙◌}
use flow_pipe.Remote.{Result, ok, quiet, Remote, continue, ◌>>=◌, pure, lift, request}

-- On a network that fails no more, the block returns a value, and the network stays so.
pub record Succeeds {S E A : Type 0} (m : Remote S E A) : Type 0 where
  pub value : S → A
  pub server : S → S
  pub runs : (s : S) → m (quiet s) ≡ (ok (value s), quiet (server s))

module _ {S E A B : Type 0} where
  pub Succeeds-bind :
      (m : Remote S E A) (f : A → Remote S E B)
      → Succeeds m
      → ((a : A) → Succeeds (f a))
      → Succeeds (m >>= f)
  unfolding ◌>>=◌
  Succeeds-bind m f sm sf = record {
    value = λ s. (sf (sm.value s)).value (sm.server s);
    server = λ s. (sf (sm.value s)).server (sm.server s);
    runs = λ s. ap (λ r. continue r.0 f r.1) (sm.runs s) ∙ (sf (sm.value s)).runs (sm.server s);
  }

module _ {S E A : Type 0} where
  pub Succeeds-pure : (a : A) → Succeeds {S = S} {E = E} (pure a)
  unfolding pure
  Succeeds-pure a = record { value = λ s. a; server = λ s. s; runs = λ s. refl }

  pub Succeeds-request : (f : S → A × S) (e : E) → Succeeds (request f e)
  unfolding request
  Succeeds-request f e = record { value = λ s. (f s).0; server = λ s. (f s).1; runs = λ s. refl }

module _ {S E A B : Type 0} where
  pub Succeeds-lift :
      (r : Result E A) (a : A) (f : A → Remote S E B)
      → r ≡ ok a
      → Succeeds (f a)
      → Succeeds (lift r >>= f)
  unfolding lift ◌>>=◌
  Succeeds-lift r a f e sf = record {
    value = sf.value;
    server = sf.server;
    runs = λ s. ap (λ x. continue x f (quiet s)) e ∙ sf.runs s;
  }

-- ===== src/Remote/Laws.antt =====
-- Rules for what a sequence of calls leaves true of the server, whatever the network does.
use flow_pipe.Prelude.{◌≡◌, refl, Bool, true, false, List, [], ◌∷◌, if◌then◌else◌}
use flow_pipe.Remote.{
  Result, ok, err, Outcome, served, refused, lost, World, quiet, Remote, request, continue, ◌>>=◌,
  pure, raise, lift, attempt,
}

-- `P` holds of the server after `m` whenever it held before, however the calls end.
pub record Keeps {S E A : Type 0} (P : S → Type 0) (m : Remote S E A) : Type 0 where
  pub after : (w : World S) → P w.server → P (m w).1.server

module _ {S E A : Type 0} {P : S → Type 0} where
  pub Keeps-request : (f : S → A × S) (e : E) → ((s : S) → P s → P (f s).1) → Keeps P (request f e)
  unfolding request
  Keeps-request f e keep = record { after = λ w h. delivered w.server w.net h }
    where
      delivered :
          (s : S) (net : List Outcome)
          → P s
          → P (request f e (record { server = s; net = net })).1.server
      delivered s [] h = keep s h
      delivered s (served ∷ net) h = keep s h
      delivered s (refused ∷ net) h = h
      delivered s (lost ∷ net) h = keep s h

module _ {S E A B : Type 0} {P : S → Type 0} where
  pub Keeps-continue :
      (r : Result E A) (f : A → Remote S E B)
      → ((a : A) → r ≡ ok a → Keeps P (f a))
      → Keeps P (continue r f)
  Keeps-continue (ok a) f keep = keep a refl
  Keeps-continue (err e) f keep = record { after = λ w h. h }

  pub Keeps-bind :
      (m : Remote S E A) (f : A → Remote S E B)
      → Keeps P m
      → ((a : A) → Keeps P (f a))
      → Keeps P (m >>= f)
  unfolding ◌>>=◌
  Keeps-bind m f km kf = record {
    after = λ w h. (Keeps-continue (m w).0 f (λ a _. kf a)).after (m w).1 (km.after w h);
  }

module _ {S E A : Type 0} {P : S → Type 0} where
  -- Steps that call no server.
  pub Keeps-pure : (a : A) → Keeps {S = S} {E = E} P (pure a)
  unfolding pure
  Keeps-pure a = record { after = λ w h. h }

  pub Keeps-raise : (e : E) → Keeps {S = S} {A = A} P (raise e)
  unfolding raise
  Keeps-raise e = record { after = λ w h. h }

  pub Keeps-result : (r : Result E A) → Keeps {S = S} P (lift r)
  unfolding lift
  Keeps-result r = record { after = λ w h. h }

  pub Keeps-if :
      (b : Bool) (m n : Remote S E A) → Keeps P m → Keeps P n → Keeps P (if b then m else n)
  Keeps-if true m n km kn = km
  Keeps-if false m n km kn = kn

module _ {S E A B : Type 0} {P : S → Type 0} where
  -- The rest of a block behind a result that calls no server may use that it is no error.
  pub Keeps-lift :
      (r : Result E A) (f : A → Remote S E B)
      → ((a : A) → r ≡ ok a → Keeps P (f a))
      → Keeps P (lift r >>= f)
  unfolding ◌>>=◌
  Keeps-lift r f keep = record { after = λ w h. (Keeps-continue r f keep).after w h }

module _ {S E A : Type 0} {P : S → Type 0} where
  pub Keeps-attempt : (m : Remote S E A) → Keeps P m → Keeps P (attempt m)
  unfolding attempt
  Keeps-attempt m k = record { after = k.after }

module _ {S E A B : Type 0} {P : S → Type 0} where
  -- Behind a read, the rest of a block may use that the value is what a server with `P` held.
  pub Keeps-read :
      (g : S → A) (e : E) (f : A → Remote S E B)
      → ((s : S) → P s → Keeps P (f (g s)))
      → Keeps P (request (λ s. (g s, s)) e >>= f)
  unfolding request ◌>>=◌
  Keeps-read g e f keep = record { after = λ w h. delivered w.server w.net h }
    where
      delivered :
          (s : S) (net : List Outcome)
          → P s
          → P ((request (λ s. (g s, s)) e >>= f) (record { server = s; net = net })).1.server
      delivered s [] h = (keep s h).after (quiet s) h
      delivered s (served ∷ net) h = (keep s h).after (record { server = s; net = net }) h
      delivered s (refused ∷ net) h = h
      delivered s (lost ∷ net) h = h

pub ruleset keeps_rules =
    (Keeps-pure, Keeps-raise, Keeps-result, Keeps-if, Keeps-bind, Keeps-attempt)

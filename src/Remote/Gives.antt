-- ===== src/Remote/Gives.antt =====
-- Rules for what holds of the server behind a sequence of calls that succeeds.
use flow_pipe.Prelude.{◌≡◌, refl, subst, Bool, true, false, arith, List, [], ◌∷◌, if◌then◌else◌}
use flow_pipe.Remote.{
  Result, ok, err, Outcome, served, refused, lost, World, Remote, continue, ◌>>=◌, pure, raise,
  lift, request,
}

ok_eq : {E A : Type 0} {a b : A} → ◌≡◌ {A = Result E A} (ok a) (ok b) → a ≡ b
ok_eq e = cc

-- From a server with `P`, a success leaves a server with `Q`.
pub record Gives {S E A : Type 0} (P : S → Type 0) (Q : A → S → Type 0) (m : Remote S E A)
    : Type 0 where
  pub holds : (w : World S) → P w.server → (a : A) → (m w).0 ≡ ok a → Q a (m w).1.server

module _ {S E A B : Type 0} {P : S → Type 0} {Q : A → S → Type 0} {R : B → S → Type 0} where
  pub Gives-bind :
      (m : Remote S E A) (f : A → Remote S E B)
      → Gives P Q m
      → ((a : A) → Gives (Q a) R (f a))
      → Gives P R (m >>= f)
  unfolding ◌>>=◌
  Gives-bind m f gm gf = record { holds = λ w p. behind w (m w).0 (gm.holds w p) }
    where
      behind :
          (w : World S) (r : Result E A)
          → ((a : A) → r ≡ ok a → Q a (m w).1.server)
          → (b : B) → (continue r f (m w).1).0 ≡ ok b
          → R b (continue r f (m w).1).1.server
      behind w (ok a) g b e = (gf a).holds (m w).1 (g a refl) b e
      behind w (err x) g b e = ground arith

module _ {S E A B : Type 0} {P : S → Type 0} {R : B → S → Type 0} where
  pub Gives-lift :
      (r : Result E A) (f : A → Remote S E B)
      → ((a : A) → r ≡ ok a → Gives P R (f a))
      → Gives P R (lift r >>= f)
  unfolding ◌>>=◌ lift
  Gives-lift r f gf = record { holds = λ w p. behind w p r gf }
    where
      behind :
          (w : World S)
          → P w.server
          → (r : Result E A) → ((a : A) → r ≡ ok a → Gives P R (f a))
          → (b : B) → (continue r f w).0 ≡ ok b
          → R b (continue r f w).1.server
      behind w p (ok a) g b e = (g a refl).holds w p b e
      behind w p (err x) g b e = ground arith

module _ {S E A : Type 0} {P : S → Type 0} {Q : A → S → Type 0} where
  pub Gives-pure : (a : A) → ((s : S) → P s → Q a s) → Gives P Q (pure {E = E} a)
  unfolding pure
  Gives-pure a h = record { holds = λ w p b e. subst (λ c. Q c w.server) (ok_eq e) (h w.server p) }

  pub Gives-raise : (e : E) → Gives P Q (raise {A = A} e)
  unfolding raise
  Gives-raise e = record { holds = λ w p b h. ground arith }

  pub Gives-if :
      (b : Bool) (m n : Remote S E A) → Gives P Q m → Gives P Q n → Gives P Q (if b then m else n)
  Gives-if true m n gm gn = gm
  Gives-if false m n gm gn = gn

  pub Gives-request :
      (g : S → A × S) (e : E) → ((s : S) → P s → Q (g s).0 (g s).1) → Gives P Q (request g e)
  unfolding request
  Gives-request g e h = record { holds = λ w p. delivered w.server w.net p }
    where
      delivered :
          (s : S) (net : List Outcome)
          → P s
          → (a : A) → (request g e (record { server = s; net = net })).0 ≡ ok a
          → Q a (request g e (record { server = s; net = net })).1.server
      delivered s [] p a x = subst (λ c. Q c (g s).1) (ok_eq x) (h s p)
      delivered s (served ∷ net) p a x = subst (λ c. Q c (g s).1) (ok_eq x) (h s p)
      delivered s (refused ∷ net) p a x = ground arith
      delivered s (lost ∷ net) p a x = ground arith

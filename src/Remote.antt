-- ===== src/Remote.antt =====
-- Calls to a server across a network. A request is served; or it fails before it takes effect; or it
-- takes effect and its reply is lost. The schedule of outcomes is part of the state; an empty schedule
-- is a network that fails no more.
pub mod Laws
pub mod Returns
pub mod Gives
pub mod Succeeds
pub mod Reads
use flow_pipe.Prelude.{Bool, true, false, Option, none, some, List, [], ◌∷◌}

pub data Result {ℓ} (E A : Type ℓ) : Type ℓ where
  ok : A → Result E A
  err : E → Result E A

pub data Outcome : Type 0 where
  served refused lost : Outcome

pub record World (S : Type 0) : Type 0 where
  pub server : S
  pub net : List Outcome

-- A server behind a network that does not fail.
abbrev pub quiet : {S : Type 0} → S → World S
quiet s = record { server = s; net = [] }

abbrev pub Remote : Type 0 → Type 0 → Type 0 → Type 0
Remote S E A = World S → Result E A × World S

module _ {S E A : Type 0} where
  unfoldable pub pure : A → Remote S E A
  pure a w = (ok a, w)

  unfoldable pub raise : E → Remote S E A
  raise e w = (err e, w)

  unfoldable pub lift : Result E A → Remote S E A
  lift r w = (r, w)

  abbrev deliver : A × S → E → S → List Outcome → Result E A × World S
  deliver (a, s') e s [] = (ok a, record { server = s'; net = [] })
  deliver (a, s') e s (served ∷ net) = (ok a, record { server = s'; net = net })
  deliver (a, s') e s (refused ∷ net) = (err e, record { server = s; net = net })
  deliver (a, s') e s (lost ∷ net) = (err e, record { server = s'; net = net })

  -- One request: `f` is what the server does, `e` the error of a call that fails.
  unfoldable pub request : (S → A × S) → E → Remote S E A
  request f e w = deliver (f w.server) e w.server w.net

module _ {E A : Type 0} where
  -- A library call that may fail.
  abbrev pub or_else : Option A → E → Result E A
  or_else none e = err e
  or_else (some a) e = ok a

module _ {E A : Type 0} where
  abbrev pub value_or_none : Result E A → Option A
  value_or_none (ok a) = some a
  value_or_none (err e) = none

module _ {S E A : Type 0} where
  -- A call whose error the caller drops.
  unfoldable pub attempt : Remote S E A → Remote S E (Option A)
  attempt m w = (ok (value_or_none (m w).0), (m w).1)

module _ {S E A B : Type 0} where
  abbrev pub continue : Result E A → (A → Remote S E B) → Remote S E B
  continue (ok a) f w = f a w
  continue (err e) f w = (err e, w)

  infixl 10 ◌>>=◌
  -- To open this opens the others too.
  unfoldable pub ◌>>=◌ : Remote S E A → (A → Remote S E B) → Remote S E B
  unfolding pure raise lift attempt
  ◌>>=◌ m f w = continue (m w).0 f (m w).1

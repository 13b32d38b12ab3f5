-- ===== src/Remote/Returns.antt =====
-- Rules for the one value that a sequence of calls returns, if it returns any.
use flow_pipe.Prelude.{◌≡◌, Bool, true, false, arith, if◌then◌else◌}
use flow_pipe.Remote.{Result, ok, err, World, Remote, continue, ◌>>=◌, pure, raise}

-- The block returns `a`, or an error.
pub record Returns {S E A : Type 0} (a : A) (m : Remote S E A) : Type 0 where
  pub only : (w : World S) (b : A) → (m w).0 ≡ ok b → b ≡ a

module _ {S E A B : Type 0} where
  continue-Returns :
      (b : B) (f : A → Remote S E B)
      → ((a : A) → Returns b (f a))
      → (r : Result E A) (w : World S) (c : B) → (continue r f w).0 ≡ ok c
      → c ≡ b
  continue-Returns b f h (ok a) w c e = (h a).only w c e
  continue-Returns b f h (err x) w c e = ground arith

  pub bind-Returns :
      (b : B) (m : Remote S E A) (f : A → Remote S E B)
      → ((a : A) → Returns b (f a))
      → Returns b (m >>= f)
  unfolding ◌>>=◌
  bind-Returns b m f h = record { only = λ w c e. continue-Returns b f h (m w).0 (m w).1 c e }

module _ {S E A : Type 0} where
  pub pure-Returns : (a : A) → Returns {S = S} {E = E} a (pure a)
  unfolding pure
  pure-Returns a = record { only = λ w b e. ground arith }

  pub raise-Returns : (a : A) (e : E) → Returns {S = S} a (raise e)
  unfolding raise
  raise-Returns a e = record { only = λ w b h. ground arith }

  pub if-Returns :
      (a : A) (b : Bool) (m n : Remote S E A)
      → Returns a m
      → Returns a n
      → Returns a (if b then m else n)
  if-Returns a true m n hm hn = hm
  if-Returns a false m n hm hn = hn

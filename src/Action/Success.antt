-- ===== src/Action/Success.antt =====
-- What an action that succeeded went through.
use regatta.Prelude.{◌≡◌, refl, ap, arith}
use regatta.Result.{Result, ok, err, panic}
use regatta.Action.{Action, next, lift}

module _ {S A B : Type 0} where
  -- A sequence that succeeds succeeds in its parts.
  pub next_ok :
      (k : A → Action S B) (r : S × Result A) (t : S) (b : B)
      → next k r ≡ (t, ok b)
      → (s : S) × (a : A) × (r ≡ (s, ok a)) × (k a s ≡ (t, ok b))
  next_ok k (s, ok a) t b e = (s, a, refl, e)
  next_ok k (s, err x) t b e = ground (arith, ap (λ y. y.1) e)
  next_ok k (s, panic) t b e = ground (arith, ap (λ y. y.1) e)

  -- An action before one that only returns a value.
  pub next-lift :
      (b c : B) (r : S × Result A) (t : S)
      → next (λ a. lift (ok b)) r ≡ (t, ok c)
      → (a : A) × (r ≡ (t, ok a)) × (b ≡ c)
  next-lift b c (s, ok a) t e = (a, ap (λ y. (y.0, ok a)) e, ground (arith, ap (λ y. y.1) e))
  next-lift b c (s, err x) t e = ground (arith, ap (λ y. y.1) e)
  next-lift b c (s, panic) t e = ground (arith, ap (λ y. y.1) e)

  -- A result that leaves the state, before another action.
  pub lift-next :
      (r : Result A) (k : A → Action S B) (s t : S) (b : B)
      → next k (s, r) ≡ (t, ok b)
      → (a : A) × (r ≡ ok a) × (k a s ≡ (t, ok b))
  lift-next (ok a) k s t b e = (a, refl, e)
  lift-next (err x) k s t b e = ground (arith, ap (λ y. y.1) e)
  lift-next panic k s t b e = ground (arith, ap (λ y. y.1) e)

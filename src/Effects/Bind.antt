-- ===== src/Effects/Bind.antt =====
-- What a computation that has succeeded went through.
use olivechain.Base.{Bool, true, false, Option, none, some, ◌≡◌, refl, ap}
use olivechain.Effects.{Exec, reads, raise_if, or_raise, ◌>>=◌}
use olivechain.Result.{Exception, Result, ok, err}

module _ {S A B : Type 0} where
  outcome-ok :
      (r : Result A) (t : S) (f : A → Exec S B) (b : B) (s' : S)
      → (elim r as (λ r. Result B × S) [ ok a ↦ f a t | err e ↦ (err e, t) ]) ≡ (ok b, s')
      → (a : A) × (r ≡ ok a) × (f a t ≡ (ok b, s'))
  outcome-ok (ok a) t f b s' h = (a, refl, h)
  outcome-ok (err e) t f b s' h = cc

  -- Both parts of a computation that succeeds have succeeded.
  pub bind-ok :
      (m : Exec S A) (f : A → Exec S B) (s : S) (b : B) (s' : S)
      → (m >>= f) s ≡ (ok b, s')
      → (a : A) × (t : S) × (m s ≡ (ok a, t)) × (f a t ≡ (ok b, s'))
  bind-ok m f s b s' h =
      let (a, ran, rest) = outcome-ok (m s).0 (m s).1 f b s' h in
      (a, (m s).1, λ i. (ran i, (m s).1), rest)

  pub bind-ran :
      (m : Exec S A) (f : A → Exec S B) (s : S) (a : A) (t : S)
      → m s ≡ (ok a, t)
      → (m >>= f) s ≡ f a t
  bind-ran m f s a t h =
      ap
        (λ (p : Result A × S). elim p.0 as (λ r. Result B × S) [
          | ok a ↦ f a p.1
          | err e ↦ (err e, p.1)
        ])
        h

  pub reads-ok :
      (r : S → Result A) (f : A → Exec S B) (s : S) (b : B) (s' : S)
      → (reads r >>= f) s ≡ (ok b, s')
      → (a : A) × (r s ≡ ok a) × (f a s ≡ (ok b, s'))
  reads-ok r f s b s' h = outcome-ok (r s) s f b s' h

  pub or_raise-ok :
      (o : Option A) (e : Exception) (f : A → Exec S B) (s : S) (b : B) (s' : S)
      → (or_raise o e >>= f) s ≡ (ok b, s')
      → (a : A) × (o ≡ some a) × (f a s ≡ (ok b, s'))
  or_raise-ok none e f s b s' h = cc
  or_raise-ok (some a) e f s b s' h = (a, refl, h)

module _ {S B : Type 0} where
  pub raise_if-ok :
      (c : Bool) (e : Exception) (f : Unit {0} → Exec S B) (s : S) (b : B) (s' : S)
      → (raise_if c e >>= f) s ≡ (ok b, s')
      → (c ≡ false) × (f tt s ≡ (ok b, s'))
  raise_if-ok true e f s b s' h = cc
  raise_if-ok false e f s b s' h = (refl, h)

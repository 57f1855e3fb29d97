-- ===== src/Effects.antt =====
-- The methods of an object that mutate it and may raise: the state comes back beside the exception
-- too, since what was written before a raise stays written.
pub mod Bind
pub mod Ensures
use olivechain.Base.{Bool, Option, none, some, if◌then◌else◌}
use olivechain.Result.{Exception, Result, ok, err}

abbrev pub Exec : Type 0 → Type 0 → Type 0
Exec S A = S → Result A × S

module _ {S A : Type 0} where
  abbrev pub pure : A → Exec S A
  pure a s = (ok a, s)

  abbrev pub gets : (S → A) → Exec S A
  gets f s = (ok (f s), s)

  -- A computation that only looks at the state.
  abbrev pub reads : (S → Result A) → Exec S A
  reads f s = (f s, s)

  abbrev pub or_raise : Option A → Exception → Exec S A
  or_raise none e s = (err e, s)
  or_raise (some a) e s = (ok a, s)

module _ {S : Type 0} where
  abbrev pub raise_if : Bool → Exception → Exec S (Unit {0})
  raise_if c e s = (if c then err e else ok tt, s)

  abbrev pub modify : (S → S) → Exec S (Unit {0})
  modify f s = (ok tt, f s)

infixl 5 ◌>>=◌ ◌>>◌
abbrev pub ◌>>=◌ : {S A B : Type 0} → Exec S A → (A → Exec S B) → Exec S B
◌>>=◌ m f s = let (r, s') = m s in elim r [ ok a ↦ f a s' | err e ↦ (err e, s') ]

abbrev pub ◌>>◌ : {S A B : Type 0} → Exec S A → Exec S B → Exec S B
m >> k = m >>= λ _. k

-- A handler of exceptions around a computation.
abbrev pub map_outcome : {S A B : Type 0} → (Result A → Result B) → Exec S A → Exec S B
map_outcome handle m s = let (r, s') = m s in (handle r, s')

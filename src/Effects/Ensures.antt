-- ===== src/Effects/Ensures.antt =====
-- Triples for methods: an invariant of the state that a method keeps on every outcome, and what it
-- ensures of its result where it returns.
use olivechain.Base.{Bool, true, false, Option, none, some, ◌≡◌, refl, ap, if◌then◌else◌}
use olivechain.Effects.{Exec, pure, reads, raise_if, or_raise, modify, ◌>>=◌}
use olivechain.Result.{Exception, Result, ok, err, ok-injective}

-- Of one outcome.
abbrev pub Holds {ℓ κ} : {S A : Type 0} → (S → Type ℓ) → (A → Type κ) → Result A × S → Type (ℓ ⊔ κ)
Holds {A} P Q r = P r.1 × ((a : A) → r.0 ≡ ok a → Q a)

pub record Ensures {ℓ κ} {S A : Type 0} (P : S → Type ℓ) (m : Exec S A) (Q : A → Type κ)
    : Type (ℓ ⊔ κ) where
  pub at : (s : S) → P s → Holds P Q (m s)

module _ {ℓ κ ι} {S A B : Type 0} {P : S → Type ℓ} where
  after :
      (r : Result A) (t : S) (f : A → Exec S B) (Q : A → Type κ) (R : B → Type ι)
      → P t
      → ((a : A) → r ≡ ok a → Q a)
      → ((a : A) → Q a → Ensures P (f a) R)
      → Holds P R (elim r as (λ r. Result B × S) [ ok a ↦ f a t | err e ↦ (err e, t) ])
  after (ok a) t f Q R p q next = (next a (q a refl)).at t p
  after (err e) t f Q R p q next = (p, λ b h. cc)

  pub bind-Ensures :
      {m : Exec S A} {f : A → Exec S B} {Q : A → Type κ} {R : B → Type ι}
      → Ensures P m Q
      → ((a : A) → Q a → Ensures P (f a) R)
      → Ensures P (m >>= f) R
  bind-Ensures {m} {f} {Q} {R} first next = record {
    at = λ s p. let (kept, q) = first.at s p in after (m s).0 (m s).1 f Q R kept q next;
  }

module _ {ℓ κ} {S A : Type 0} {P : S → Type ℓ} where
  pub done-Ensures : {m : Exec S A} {Q : A → Type κ} → Ensures P m Q → Ensures P m (λ a. Unit {0})
  done-Ensures h = record { at = λ s p. ((h.at s p).0, λ a r. tt) }

  pub if-Ensures :
      {m n : Exec S A} {Q : A → Type κ} (b : Bool)
      → (b ≡ true → Ensures P m Q)
      → (b ≡ false → Ensures P n Q)
      → Ensures P (if b then m else n) Q
  if-Ensures true h h' = h refl
  if-Ensures false h h' = h' refl

module _ {ℓ} {S A : Type 0} where
  pub reads-Ensures : {P : S → Type ℓ} (r : Result A) → Ensures P (reads (λ s. r)) (λ a. r ≡ ok a)
  reads-Ensures r = record { at = λ s p. (p, λ a h. h) }

  pub pure-Ensures : {P : S → Type ℓ} (x : A) → Ensures P (pure x) (λ a. x ≡ a)
  pure-Ensures x = record { at = λ s p. (p, λ a h. ok-injective h) }

  or_raise-Holds :
      (P : S → Type ℓ) (o : Option A) (e : Exception) (s : S)
      → P s
      → Holds P (λ a. o ≡ some a) (or_raise o e s)
  or_raise-Holds P none e s p = (p, λ a h. cc)
  or_raise-Holds P (some x) e s p = (p, λ a h. ap some (ok-injective h))

  pub or_raise-Ensures :
      {P : S → Type ℓ} (o : Option A) (e : Exception) → Ensures P (or_raise o e) (λ a. o ≡ some a)
  or_raise-Ensures {P} o e = record { at = or_raise-Holds P o e }

module _ {ℓ} {S : Type 0} where
  raise_if-Holds :
      (P : S → Type ℓ) (c : Bool) (e : Exception) (s : S)
      → P s
      → Holds P (λ done. c ≡ false) (raise_if c e s)
  raise_if-Holds P true e s p = (p, λ a h. cc)
  raise_if-Holds P false e s p = (p, λ a h. refl)

  pub raise_if-Ensures :
      {P : S → Type ℓ} (c : Bool) (e : Exception) → Ensures P (raise_if c e) (λ done. c ≡ false)
  raise_if-Ensures {P} c e = record { at = raise_if-Holds P c e }

  pub modify-Ensures :
      {P : S → Type ℓ} (f : S → S)
      → ((s : S) → P s → P (f s))
      → Ensures P (modify f) (λ done. Unit {0})
  modify-Ensures f keep = record { at = λ s p. (keep s p, λ a h. tt) }

module _ {ℓ κ} {S A : Type 0} {P : S → Type ℓ} where
  -- A call of which the result is dropped.
  pub drop-Ensures :
      {m : Exec S A} {Q : A → Type κ}
      → Ensures P m Q
      → Ensures P (m >>= λ a. pure tt) (λ done. Unit {0})
  drop-Ensures h = bind-Ensures {f = λ a. pure tt} h λ a q. done-Ensures (pure-Ensures tt)

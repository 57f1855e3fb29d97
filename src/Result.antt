-- ===== src/Result.antt =====
-- Exceptions as values. A function that may raise and changes no state returns a `Result`.
use olivechain.Base.{
  String, Bool, Option, none, some, List, [], ◌∷◌, if◌then◌else◌, ◌≡◌, refl, ap, ◌⊎◌, inl, inr,
}

-- An exception's class, its message's template and the texts that are put into it.
pub data Exception : Type 0 where
  value_error key_error type_error attribute_error os_error : String → List String → Exception
  index_error oracle_error permission_error ledger_error wallet_auth_error portal_auth_error :
      String → List String → Exception
  -- no exception, but a call that never returns
  diverges : Exception

pub data Result {ℓ} (A : Type ℓ) : Type ℓ where
  ok : A → Result A
  err : Exception → Result A

-- What comes after is skipped when an exception is raised.
infixl 5 ◌>>=◌ ◌>>◌
abbrev pub ◌>>=◌ {ℓ κ} : {A : Type ℓ} → {B : Type κ} → Result A → (A → Result B) → Result B
err raised >>= next = err raised
ok a >>= next = next a

abbrev pub ◌>>◌ {κ} : {B : Type κ} → Result (Unit {0}) → Result B → Result B
first >> next = first >>= λ done. next

abbrev pub raise_if : Bool → Exception → Result (Unit {0})
raise_if c e = if c then err e else ok tt

abbrev pub or_raise {ℓ} : {A : Type ℓ} → Option A → Exception → Result A
or_raise none e = err e
or_raise (some a) e = ok a

-- A loop over a list that stops at the first exception.
abbrev pub map_result {ℓ κ} : {A : Type ℓ} {B : Type κ} → (A → Result B) → List A → Result (List B)
map_result f [] = ok []
map_result f (x ∷ xs) = f x >>= λ y. map_result f xs >>= λ ys. ok (y ∷ ys)

-- A loop over a list that carries a value along.
abbrev pub fold_result {ℓ κ} :
    {A : Type ℓ} {B : Type κ} → (B → A → Result B) → B → List A → Result B
fold_result f b [] = ok b
fold_result f b (x ∷ xs) = f b x >>= λ b'. fold_result f b' xs

pub Result-cases {ℓ} :
    {A : Type ℓ} (r : Result A) → ((a : A) × (r ≡ ok a)) ⊎ ((e : Exception) × (r ≡ err e))
Result-cases (ok a) = inl (a, refl)
Result-cases (err e) = inr (e, refl)

-- A computation that succeeds has run both its parts.
pub bind-ok {ℓ κ} :
    {A : Type ℓ} {B : Type κ} (m : Result A) (f : A → Result B) (b : B)
    → (m >>= f) ≡ ok b
    → (a : A) × (m ≡ ok a) × (f a ≡ ok b)
bind-ok (ok a) f b h = (a, refl, h)
bind-ok (err e) f b h = cc

pub ok-injective {ℓ} : {A : Type ℓ} {a b : A} → ok a ≡ ok b → a ≡ b
ok-injective {a = a} h = ap (λ r. elim r [ ok x ↦ x | err e ↦ a ]) h

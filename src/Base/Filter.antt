-- ===== src/Base/Filter.antt =====
-- What passes a test of a comprehension.
use mathlib.Core.Path.{◌≡◌, refl, ap}
use mathlib.Core.Logic.{◌⊎◌, inl, inr}
use mathlib.Core.Bool.{Bool, true, false}
use mathlib.Core.List.{List, [], ◌∷◌, ◌++◌}
use native.Mathlib.Omega.{arith}
use olivechain.Base.Tests.{if◌then◌else◌}
use olivechain.Base.Lists.{filter, all}

pub filter-all :
    {A : Type 0} {p q : A → Bool} (xs : List A)
    → ((x : A) → q x ≡ true → p x ≡ true)
    → all q xs ≡ true
    → filter p xs ≡ xs
filter-all [] f h = refl
filter-all (x ∷ xs) f h = ground (arith, f x, filter-all xs f)

pub filter-append :
    {A : Type 0} (p : A → Bool) (xs ys : List A) → filter p (xs ++ ys) ≡ filter p xs ++ filter p ys
filter-append p [] ys = refl
filter-append p (x ∷ xs) ys = ground (arith, filter-append p xs ys)

pub all-append_one :
    {A : Type 0} (p : A → Bool) (xs : List A) (y : A)
    → all p xs ≡ true
    → p y ≡ true
    → all p (xs ++ y ∷ []) ≡ true
all-append_one p [] y h h' = ground arith
all-append_one p (x ∷ xs) y h h' = ground (arith, all-append_one p xs y)

pub all-filter : {A : Type 0} (p : A → Bool) (xs : List A) → all p (filter p xs) ≡ true
all-filter p [] = refl
all-filter p (x ∷ xs) = ground (arith, all-filter p xs)

pub if-ap {ℓ κ} :
    {A : Type ℓ} {B : Type κ} (f : A → B) (b : Bool) (x y : A)
    → f (if b then x else y) ≡ (if b then f x else f y)
if-ap f true x y = refl
if-ap f false x y = refl

pub if-same {ℓ κ} :
    {A : Type ℓ} {B : Type κ} (f : A → B) (b : Bool) (x y : A) (c : B)
    → f x ≡ c
    → f y ≡ c
    → f (if b then x else y) ≡ c
if-same f true x y c h h' = h
if-same f false x y c h h' = h'

pub if-elim {ℓ κ} :
    {A : Type ℓ} (P : A → Type κ) (b : Bool) (x y : A)
    → (b ≡ true → P x)
    → (b ≡ false → P y)
    → P (if b then x else y)
if-elim P true x y h h' = h refl
if-elim P false x y h h' = h' refl

pub append_nil {ℓ} : {A : Type ℓ} (xs : List A) → xs ++ [] ≡ xs
append_nil [] = refl
append_nil (x ∷ xs) = ap (λ r. x ∷ r) (append_nil xs)

pub append_cons {ℓ} :
    {A : Type ℓ} (xs : List A) (y : A) (ys : List A) → (xs ++ y ∷ []) ++ ys ≡ xs ++ y ∷ ys
append_cons [] y ys = refl
append_cons (x ∷ xs) y ys = ap (λ r. x ∷ r) (append_cons xs y ys)

pub if-cases {ℓ} :
    {A : Type ℓ} (b : Bool) (x y z : A)
    → (if b then x else y) ≡ z
    → ((b ≡ true) × (x ≡ z)) ⊎ ((b ≡ false) × (y ≡ z))
if-cases true x y z h = inl (refl, h)
if-cases false x y z h = inr (refl, h)

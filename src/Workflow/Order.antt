-- ===== src/Workflow/Order.antt =====
-- Histories that go through the steps of workflow.py in order.
use mathlib.Core.Path.{subst}
use olivechain.Base.{
  ℕ, zero, suc, ◌+◌, ◌<◌, String, true, ◌≡◌, refl, sym, List, [], ◌∷◌, eq_iff, arith, length, drop,
}
use olivechain.Event.{Event}
use olivechain.Workflow.Steps.{product_steps, text_in, index}

-- The events are of the first types of the list, one for each, in the list's order.
abbrev pub Follows : List String → List Event → Type 0
Follows steps [] = Unit
Follows [] (e ∷ es) = ⊥
Follows (s ∷ steps) (e ∷ es) = (e.event_type ≡ s) × Follows steps es

pub index-lt : (s : String) (xs : List String) → text_in s xs ≡ true → index s xs < length xs
unfolding index
index-lt s [] h = cc
index-lt s (x ∷ xs) h = ground (arith, index-lt s xs)

-- What stands at the index of a text is that text.
drop-index :
    (s : String) (xs : List String)
    → index s xs < length xs
    → drop (index s xs) xs ≡ s ∷ drop (suc (index s xs)) xs
unfolding index
drop-index s [] h = elim h [ ]
drop-index s (x ∷ xs) h = ground (arith, drop-index s xs, eq_iff x s)

drop-nil : (k : ℕ) → drop {A = String} k [] ≡ []
drop-nil zero = refl
drop-nil (suc k) = refl

moved :
    {s t : String} {k : ℕ} {xs ys : List String}
    → t ∷ xs ≡ s ∷ ys
    → index t product_steps ≡ k
    → index s product_steps ≡ k
moved {k = k} h e = subst (λ x. index x product_steps ≡ k) (cc) e

-- A product step stands at one place only.
index-step :
    (k : ℕ) {s : String} {rest : List String}
    → drop k product_steps ≡ s ∷ rest
    → index s product_steps ≡ k
unfolding index
index-step zero h = moved h refl
index-step (suc zero) h = moved h refl
index-step (suc (suc zero)) h = moved h refl
index-step (suc (suc (suc zero))) h = moved h refl
index-step (suc (suc (suc (suc zero)))) h = moved h refl
index-step (suc (suc (suc (suc (suc zero))))) h = moved h refl
index-step (suc (suc (suc (suc (suc (suc zero)))))) h = moved h refl
index-step (suc (suc (suc (suc (suc (suc (suc k))))))) h = absurd (cc (drop-nil k))

drop-suc :
    {A : Type 0} (k : ℕ) {x : A} (xs : List A) {rest : List A}
    → drop k xs ≡ x ∷ rest
    → drop (suc k) xs ≡ rest
drop-suc zero [] h = cc
drop-suc zero (x ∷ xs) h = cc
drop-suc (suc k) [] h = cc
drop-suc (suc k) (x ∷ xs) h = drop-suc k xs h

pub head-in_order :
    (k : ℕ) (e : Event) (es : List Event) (steps : List String)
    → drop k product_steps ≡ steps
    → Follows steps (e ∷ es)
    → (index e.event_type product_steps ≡ k) × Follows (drop (k + 1) product_steps) es
head-in_order k e es [] h f = elim f [ ]
head-in_order k e es (s ∷ steps) h (same, f) =
    let later : drop (k + 1) product_steps ≡ steps =
      let step : k + 1 ≡ suc k = omega arith in cc (drop-suc k product_steps h, step) in
    (cc (index-step k h, same), subst (λ x. Follows x es) (sym later) f)

pub in_order-Follows :
    (k : ℕ) (e : Event) (es : List Event)
    → text_in e.event_type product_steps ≡ true
    → index e.event_type product_steps ≡ k
    → Follows (drop (k + 1) product_steps) es
    → Follows (drop k product_steps) (e ∷ es)
in_order-Follows k e es m h f =
    let here = drop-index e.event_type product_steps (index-lt e.event_type product_steps m) in
    let split : drop k product_steps ≡ e.event_type ∷ drop (k + 1) product_steps =
      let step : k + 1 ≡ suc k = omega arith in cc (here, h, step) in
    subst (λ xs. Follows xs (e ∷ es)) (sym split) (refl, f)

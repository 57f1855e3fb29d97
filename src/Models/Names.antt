-- ===== src/Models/Names.antt =====
-- The names of the event types and of the roles, read and printed.
use olivechain.Base.{String, ◌≡◌, refl, Bool, true, some, List, [], ◌∷◌, ◌==◌, eq_iff, arith, find}
use olivechain.Models.{EventType, Role, value, of_value, role_value, role_of_value, event_types}

-- A search returns an element that passes its test.
find_passes {ℓ} :
    {A : Type ℓ} (p : A → Bool) (xs : List A) {a : A} → find p xs ≡ some a → p a ≡ true
find_passes p [] h = ground arith
find_passes p (x ∷ xs) {a} h = ground (arith, find_passes p xs {a = a})

pub value-of_value : (s : String) (t : EventType) → of_value s ≡ some t → value t ≡ s
unfolding of_value
value-of_value s t h = (eq_iff (value t) s).0 (find_passes (λ a. value a == s) event_types h)

pub role_of_value-role_value : (r : Role) → role_of_value (role_value r) ≡ some r
unfolding role_of_value
role_of_value-role_value Role.farmer = refl
role_of_value-role_value _ = refl

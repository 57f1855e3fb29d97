-- ===== src/Base/Sort.antt =====
-- Texts in the order of their code points, and `sorted` by such a key.
use Prim.Native.String.{String, compare}
use Prim.Native.Nat.{Ordering}
use mathlib.Core.Bool.{Bool, true, false}
use mathlib.Core.List.{List, [], ◌∷◌}
use olivechain.Base.Tests.{if◌then◌else◌}

abbrev pub text_leb : String → String → Bool
text_leb a b = elim (compare a b) [ Ordering.gt ↦ false | _ ↦ true ]

module _ {ℓ} {A : Type ℓ} where
  unfoldable pub insert_sorted : (A → String) → A → List A → List A
  insert_sorted key e [] = e ∷ []
  insert_sorted key e (x ∷ xs) =
      if text_leb (key e) (key x) then e ∷ x ∷ xs else x ∷ insert_sorted key e xs

  -- Stable, as Python's `sorted`.
  unfoldable pub sort_by : (A → String) → List A → List A
  unfolding insert_sorted
  sort_by key [] = []
  sort_by key (x ∷ xs) = insert_sorted key x (sort_by key xs)

-- ===== src/Workflow/Member.antt =====
-- What holds of each text of a list of literals holds of a text that is in it.
use mathlib.Core.Path.{subst}
use olivechain.Base.{
  String, Bool, true, ◌≡◌, List, [], ◌∷◌, all, arith, eq_iff, inl, inr, Bool-cases, ◌==◌,
}
use olivechain.Workflow.Steps.{text_in}

pub member :
    (p : String → Bool) (t : String) (xs : List String)
    → text_in t xs ≡ true
    → all p xs ≡ true
    → p t ≡ true
member p t [] h k = cc
member p t (x ∷ xs) h k = elim (Bool-cases (x == t)) [
  | inl same ↦
      let e : x ≡ t = ground (arith, eq_iff x t) in subst (λ t. p t ≡ true) e (ground arith)
  | inr other ↦ member p t xs (ground arith) (ground arith)
]

pub member_one : {t a : String} → text_in t (a ∷ []) ≡ true → t ≡ a
member_one {t = t} {a = a} h = ground (arith, eq_iff a t)

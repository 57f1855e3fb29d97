-- ===== src/Portal/Login.antt =====
-- `authenticate` of portal_auth.py.
pub mod Stored
use olivechain.Base.{
  ℕ, String, Bool, true, false, not, ◌&&◌, ◌||◌, Option, none, some, List, [], ◌∷◌, Dict, lookup,
  if◌then◌else◌,
}
use olivechain.Effects.{Exec, pure, reads, raise_if, map_outcome, ◌>>=◌, ◌>>◌}
use olivechain.Json.{Value, Floats, null, boolean}
use olivechain.Json.Access.{item, truthy, is_text}
use olivechain.Result.{Exception, Result, ok, err, type_error, portal_auth_error}
use olivechain.Portal.Digest.{judge}
use olivechain.Portal.Identity.{PortalLibrary, fail, normalize_username}
use olivechain.Portal.Rows.{copy_row, row_get}
use olivechain.Portal.Store.{UsersFile, users}

-- `authenticate` returns a row or a truth value.
pub data Answer : Type 0 where
  user : Dict Value → Answer
  matches : Bool → Answer

abbrev pub row_at : String → Dict Value → Value
row_at username rows = elim (lookup username rows) [ none ↦ null | some row ↦ row ]

module _ (L : PortalLibrary) (F : Floats) where
  -- An attempt for a name that can be no user's goes on with a name that is none.
  abbrev pub name_or_invalid : String → String
  name_or_invalid username = elim (normalize_username L username) [
    | ok name ↦ name
    | err e ↦ "invalid-user"
  ]

  unfoldable pub authenticate_user : String → String → ℕ → Exec UsersFile (Dict Value)
  unfolding users
  authenticate_user username password now = do
    rows ← users L F now
    reads (λ s. judge L F (row_at (name_or_invalid username) rows) password)

  -- A login by role: the `try` is around the login alone.
  unfoldable pub answer_of : String → String → Result (Dict Value) → Result Answer
  answer_of org_id role (err (portal_auth_error t texts)) = ok (matches false)
  answer_of org_id role (err e) = err e
  answer_of org_id role (ok row) = elim (item "org_id" row) [
    | err e ↦ err e
    | ok org ↦
        if is_text org_id org
        then (elim (item "role" row) [ err e ↦ err e | ok r ↦ ok (matches (is_text role r)) ])
        else ok (matches false)
  ]

  -- With two arguments, the name and the password; with three, an organization and a role.
  unfoldable pub authenticate : List String → ℕ → Exec UsersFile Answer
  unfolding authenticate_user answer_of
  authenticate (username ∷ password ∷ []) now =
      authenticate_user username password now >>= λ row. pure (user row)
  authenticate (org_id ∷ role ∷ password ∷ []) now =
      map_outcome (answer_of org_id role) (authenticate_user role password now)
  authenticate args now =
      reads
        (λ s. err (type_error "authenticate expects username,password or org_id,role,password" []))

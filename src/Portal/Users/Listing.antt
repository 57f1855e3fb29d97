-- ===== src/Portal/Users/Listing.antt =====
-- What portal_auth.py lists: the organizations that it offers, and users.
use olivechain.Base.{
  String, Bool, true, false, Option, none, some, List, [], ◌∷◌, Dict, if◌then◌else◌, map,
}
use olivechain.Base.Sort.{sort_by}
use olivechain.Json.{Value, Floats, str, arr, to_items, dict_value}
use olivechain.Json.Access.{item, is_text, value_item}
use olivechain.Result.{Result, ok, err, type_error, map_result, ◌>>=◌}
use olivechain.Portal.Identity.{PortalIdentity, portal_identities}
use olivechain.Portal.Rows.{is_active_in, public_user}

option_row : String × PortalIdentity → Value
option_row (org_id, spec) = dict_value (
    ("org_id", str org_id)
    ∷ ("name", str spec.name)
    ∷ ("msp_id", str spec.msp_id)
    ∷ ("machine", str spec.machine)
    ∷ ("roles", arr (to_items (map (λ r. str r) spec.roles)))
    ∷ [])

pub list_options : List Value
unfolding option_row
list_options = map option_row portal_identities

module _ (F : Floats) where
  any_active : String → String → Dict Value → Result Bool
  any_active org_id role [] = ok false
  any_active org_id role ((username, row) ∷ rows) = is_active_in F org_id role row >>= λ found.
      if found then ok true else any_active org_id role rows

  -- `configured`, of the users that are loaded
  unfoldable pub configured_in : String → String → Dict Value → Result Bool
  unfolding any_active
  configured_in org_id role rows = any_active org_id role rows

  public_users : Option String → Dict Value → Result (List (Dict Value))
  public_users org_id [] = ok []
  public_users none ((username, row) ∷ rows) =
      public_user F row >>= λ shown. public_users none rows >>= λ rest. ok (shown ∷ rest)
  public_users (some org_id) ((username, row) ∷ rows) = do
    org ← value_item "org_id" row
    (if is_text org_id org
        then (public_user F row >>= λ shown.
            public_users (some org_id) rows >>= λ rest. ok (shown ∷ rest))
        else public_users (some org_id) rows)

  -- A listed user with the three columns that it is sorted by; columns without texts raise.
  abbrev Listed : Type 0
  Listed = String × String × String × Dict Value

  column : String → Dict Value → Result String
  column key row = item key row >>= λ v. elim v [
    | str s ↦ ok s
    | _ ↦ err (type_error "'<' not supported between these columns" [])
  ]

  with_columns : Dict Value → Result Listed
  unfolding column
  with_columns row = do
    org_id ← column "org_id" row
    role ← column "role" row
    username ← column "username" row
    ok (org_id, role, username, row)

  abbrev listed_row : Listed → Dict Value
  listed_row (org_id, role, username, row) = row

  -- By (org_id, role, username): the sorts are stable, so the last one counts first.
  sort_users : List Listed → List Listed
  sort_users rows = sort_by (λ r. r.0) (sort_by (λ r. r.1) (sort_by (λ r. r.2) rows))

  -- `list_users`, of the users that are loaded
  unfoldable pub list_users_in : Option String → Dict Value → Result (List (Dict Value))
  unfolding public_users with_columns sort_users
  list_users_in org_id rows = do
    shown ← public_users org_id rows
    keyed ← map_result with_columns shown
    ok (map listed_row (sort_users keyed))

-- ===== src/Portal/Rows.antt =====
-- The rows of users in portal_auth.py as the code reads and writes them. A row of the file may be
-- any value.
pub mod Stored
pub mod Accounts
use olivechain.Base.{
  ℕ, String, Bool, true, false, not, ◌&&◌, Option, none, some, List, [], ◌∷◌, Dict, lookup, update,
  if◌then◌else◌,
}
use olivechain.Base.Int.{ℤ, pos}
use olivechain.Json.{
  Value, Floats, null, boolean, int, float, str, arr, obj, nil, cons, dict_value, of_fields,
}
use olivechain.Json.Access.{item, get_or, value_item, truthy, to_int, is_text}
use olivechain.Portal.Identity.{fail}
use olivechain.Result.{
  Result, ok, err, type_error, value_error, attribute_error, or_raise, raise_if, ◌>>=◌, ◌>>◌,
}

-- `row.get(key, default)`
unfoldable pub row_get : Value → String → Value → Result Value
row_get default key (obj fs) = ok (get_or default key (of_fields fs))
row_get default key _ = err (attribute_error "object has no attribute 'get'" [])

-- `dict(row)`; a list of pairs, of which Python makes a dict, raises here.
unfoldable pub copy_row : Value → Result (Dict Value)
copy_row (obj fs) = ok (of_fields fs)
copy_row (str s) = err (value_error "dictionary update sequence element #0 has length 1" [])
copy_row _ = err (type_error "cannot convert to a dict" [])

-- Assignments to keys of a row.
unfoldable pub set_row : Dict Value → Value → Result Value
set_row changes (obj fs) = ok (dict_value (update (of_fields fs) changes))
set_row changes _ = err (type_error "object does not support item assignment" [])

abbrev pub not_null : Option Value → Option Value
not_null none = none
not_null (some null) = none
not_null (some row) = some row

-- `users.get(username)`, where a null is no row either
unfoldable pub find_row : String → Dict Value → Option Value
find_row username users = not_null (lookup username users)

-- Whether a row is of the organization and in the role, without the test that it is active.
unfoldable pub is_of : String → String → Value → Result Bool
is_of org_id role row = do
  org ← value_item "org_id" row
  (if is_text org_id org then (value_item "role" row >>= λ r. ok (is_text role r)) else ok false)

module _ (F : Floats) where
  -- `row["org_id"] == org_id and row["role"] == role and row.get("active", True)`
  unfoldable pub is_active_in : String → String → Value → Result Bool
  unfolding is_of row_get
  is_active_in org_id role row = do
    same ← is_of org_id role row
    (if same
        then (row_get (boolean true) "active" row >>= λ active. ok (truthy F active))
        else ok false)

  unfoldable pub public_user : Value → Result (Dict Value)
  unfolding row_get
  public_user row = do
    username ← value_item "username" row
    display_name ← value_item "display_name" row
    org_id ← value_item "org_id" row
    org_name ← row_get (str "") "org_name" row
    msp_id ← row_get (str "") "msp_id" row
    role ← value_item "role" row
    identity_alias ← value_item "identity_alias" row
    client_id_hash ← row_get (str "") "client_id_hash" row
    active ← row_get (boolean true) "active" row
    created_at ← row_get (int (pos 0)) "created_at" row
    created ← to_int F created_at
    updated_at ← row_get (int (pos 0)) "updated_at" row
    updated ← to_int F updated_at
    created_by ← row_get (str "") "created_by" row
    ok (
        ("username", username)
        ∷ ("display_name", display_name)
        ∷ ("org_id", org_id)
        ∷ ("org_name", org_name)
        ∷ ("msp_id", msp_id)
        ∷ ("role", role)
        ∷ ("identity_alias", identity_alias)
        ∷ ("client_id_hash", client_id_hash)
        ∷ ("active", boolean (truthy F active))
        ∷ ("created_at", int created)
        ∷ ("updated_at", int updated)
        ∷ ("created_by", created_by)
        ∷ [])

  -- `get_user`, of the users that are loaded
  unfoldable pub pick_user : String → Bool → Dict Value → Result (Dict Value)
  unfolding row_get copy_row
  pick_user key require_active rows = do
    row ← or_raise (find_row key rows) (fail "unknown user")
    active ← (if require_active then row_get (boolean true) "active" row else ok (boolean true))
    raise_if (require_active && not (truthy F active)) (fail "user is disabled")
    copy_row row

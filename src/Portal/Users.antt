-- ===== src/Portal/Users.antt =====
-- The accounts of portal_auth.py. The time, and the salts that `token_bytes` gives, are arguments.
pub mod Listing
pub mod Admission
pub mod Accounts
pub mod Runs
pub mod Passwords
pub mod Status
pub mod Added
use olivechain.Base.{
  ℕ, String, Bool, true, false, not, ◌&&◌, ◌||◌, Option, none, some, List, [], ◌∷◌, Dict, insert,
  erase, contains, ◌==◌, length, ltb, if◌then◌else◌,
}
use olivechain.Base.Int.{pos}
use olivechain.Effects.{Exec, pure, reads, or_raise, raise_if, modify, ◌>>=◌, ◌>>◌}
use olivechain.Json.{Value, Floats, boolean, int, str, dict_value}
use olivechain.Json.Access.{truthy}
use olivechain.Json.Dump.{codes}
use olivechain.Result.{Result, ok, portal_auth_error, type_error}
use olivechain.Portal.Identity.{
  PortalLibrary, PortalIdentity, fail, validate_identity, validate_password, normalize_username,
  password_digest, pbkdf2_iterations,
}
use olivechain.Portal.NewUser.{NewUser, admit, user_columns, password_columns}
use olivechain.Portal.Rows.{set_row, find_row, pick_user, is_of, public_user}
use olivechain.Portal.Store.{UsersFile, Store, write_store, load_store, users}

-- Whether there is a row, of the organization and in the role.
abbrev pub is_user_of : String → String → Option Value → Result Bool
is_user_of org_id role none = ok false
is_user_of org_id role (some row) = is_of org_id role row

-- The writing of a row, where a store has been loaded.
abbrev pub write_row : String → Value → Store → Exec UsersFile (Unit {0})
write_row username row store =
    modify (λ s. write_store (record store { users = insert username row store.users }))

module _ (L : PortalLibrary) (F : Floats) where
  unfoldable pub get_user : String → Bool → ℕ → Exec UsersFile (Dict Value)
  unfolding users
  get_user username require_active now = do
    key ← reads (λ s. normalize_username L username)
    rows ← users L F now
    reads (λ s. pick_user F key require_active rows)

  unfoldable pub add_user : NewUser → ℕ → List ℕ → Exec UsersFile (Dict Value)
  add_user u now salt = do
    (username, spec, display_name) ← reads (λ s. admit L u)
    store ← load_store L F now
    raise_if (contains username store.users)
        (portal_auth_error "username {} already exists" (username ∷ []))
    let row = dict_value (user_columns L username display_name spec now salt u)
    write_row username row store
    reads (λ s. public_user F row)

  unfoldable pub add_bootstrap_admin :
      String → String → String → String → ℕ → List ℕ → Exec UsersFile (Dict Value)
  unfolding add_user
  add_bootstrap_admin org_id username display_name password now salt =
      add_user
        (record {
          username = username;
          display_name = display_name;
          org_id = org_id;
          role = "orgadmin";
          password = password;
          identity_alias = "orgadmin";
          client_id_hash = "";
          created_by = "bootstrap";
        })
        now salt

  unfoldable pub set_user_password : String → String → ℕ → List ℕ → Exec UsersFile (Unit {0})
  set_user_password username password now salt = do
    username ← reads (λ s. normalize_username L username)
    reads (λ s. validate_password password)
    store ← load_store L F now
    row ← or_raise (find_row username store.users) (fail "unknown user")
    row ← reads (λ s. set_row (password_columns L password salt) row)
    row ← reads (λ s. set_row (("updated_at", int (pos now)) ∷ []) row)
    write_row username row store

  unfoldable pub set_user_status : String → Bool → ℕ → Exec UsersFile (Dict Value)
  set_user_status username active now = do
    username ← reads (λ s. normalize_username L username)
    store ← load_store L F now
    row ← or_raise (find_row username store.users) (fail "unknown user")
    row ← reads (λ s. set_row (("active", boolean active) ∷ ("updated_at", int (pos now)) ∷ []) row)
    write_row username row store
    reads (λ s. public_user F row)

  abbrev pub legacy_user : String → String → String → String → NewUser
  legacy_user username org_id role password = record {
    username = username;
    display_name = L.title role;
    org_id = org_id;
    role = role;
    password = password;
    identity_alias = role;
    client_id_hash = "";
    created_by = "legacy-role-password";
  }

  unfoldable pub set_or_add :
      String → String → String → String → ℕ → List ℕ → Dict Value → Exec UsersFile (Unit {0})
  set_or_add username org_id role password now salt rows =
      if contains username rows
      then set_user_password username password now salt
      else (add_user (legacy_user username org_id role password) now salt >>= λ shown. pure tt)

  -- With two arguments, the name and the password; with three, an organization and a role.
  unfoldable pub set_password : List String → ℕ → List ℕ → Exec UsersFile (Unit {0})
  set_password (username ∷ password ∷ []) now salt = set_user_password username password now salt
  set_password (org_id ∷ role ∷ password ∷ []) now salt = do
    username ← reads (λ s. normalize_username L role)
    rows ← users L F now
    set_or_add username org_id role password now salt rows
  set_password args now salt = reads (λ s.
      Result.err (type_error "set_password expects username,password or org_id,role,password" []))

  unfoldable pub delete_password : String → String → ℕ → Exec UsersFile Bool
  delete_password org_id role now = do
    username ← reads (λ s. normalize_username L role)
    store ← load_store L F now
    same ← reads (λ s. is_user_of org_id role (find_row username store.users))
    (if same
        then modify (λ s. write_store (record store { users = erase username store.users }))
          >> pure true
        else pure false)

-- ===== src/Portal/Store.antt =====
-- The file of users of portal_auth.py: loading it, migrating an old one, and writing it.
use Prim.Native.Char.{code}
use olivechain.Base.{
  ℕ, String, Bool, true, false, not, ◌||◌, Option, none, some, List, [], ◌∷◌, Dict, lookup, insert,
  eqb, if◌then◌else◌,
}
use olivechain.Base.Int.{ℤ, pos}
use olivechain.Effects.{Exec, pure, reads, modify, ◌>>=◌, ◌>>◌}
use olivechain.Json.{Value, Floats, null, boolean, int, float, str, arr, obj, dict_value, of_fields}
use olivechain.Json.Access.{get_or, truthy, same_key}
use olivechain.Json.Sorted.{sorted}
use olivechain.Result.{Result, ok, err, portal_auth_error}
use olivechain.Portal.Identity.{PortalLibrary, fail}
use olivechain.Portal.Store.Migration.{migrate_legacy}
mod Migration
pub mod Written

-- `users_path`: no file, one that cannot be read or parsed, or one that holds a value.
pub data UsersFile : Type 0 where
  missing : UsersFile
  unreadable : String → UsersFile
  json : Value → UsersFile

-- What is loaded: the dict of the file, and the dict of users in it.
pub record Store : Type 0 where
  pub content : Dict Value
  pub users : Dict Value

abbrev pub new_store : Dict Value → Store
new_store users = record {
  content = ("schema_version", int (pos 2)) ∷ ("users", dict_value users) ∷ [];
  users = users;
}

unfoldable pub write_store : Store → UsersFile
write_store store =
    json (sorted (dict_value (insert "users" (dict_value store.users) store.content)))

-- `data.get("users")`, which has to be a dict.
unfoldable pub with_users : Dict Value → Value → Result Store
with_users content (obj fs) = ok (record { content = content; users = of_fields fs })
with_users content _ = err (fail "portal users must be a JSON object")

module _ (L : PortalLibrary) (F : Floats) where
  -- `data.get("schema_version") == STORE_VERSION`
  abbrev pub is_current : Dict Value → Bool
  is_current content = same_key F (get_or null "schema_version" content) (int (pos 2))

  abbrev pub migrate_store : ℕ → Dict Value → Exec UsersFile Store
  migrate_store now legacy = do
    users ← reads (λ s. migrate_legacy L F now legacy)
    modify (λ s. write_store (new_store users))
    pure (new_store users)

  abbrev pub load_value : ℕ → Value → Exec UsersFile Store
  load_value now (obj fs) s =
      if is_current (of_fields fs)
      then (with_users (of_fields fs) (get_or null "users" (of_fields fs)), s)
      else migrate_store now (of_fields fs) s
  load_value now _ s = (err (fail "portal user store must be a JSON object"), s)

  unfoldable pub load_store : ℕ → Exec UsersFile Store
  unfolding with_users
  load_store now missing = (ok (new_store []), missing)
  load_store now (unreadable text) =
      (err (portal_auth_error "cannot read portal user store: {}" (text ∷ [])), unreadable text)
  load_store now (json value) = load_value now value (json value)

  -- `self._users()`
  unfoldable pub users : ℕ → Exec UsersFile (Dict Value)
  unfolding load_store
  users now = do store ← load_store now; pure store.users

-- ===== src/Portal/Users/Added.antt =====
-- A user who has been added.
use mathlib.Core.Path.{subst}
use olivechain.Base.{
  ℕ, String, Bool, true, false, not, some, Dict, List, lookup, insert, contains, lookup-insert, ◌≡◌,
  refl, sym, ◌∙◌, ap, ◌==◌, if◌then◌else◌,
}
use olivechain.Base.Filter.{if-ap}
use olivechain.Base.Int.{pos}
use olivechain.Json.{Value, Floats, boolean, dict_value}
use olivechain.Json.Access.{get_or, truthy}
use olivechain.Json.Sorted.{sorted, sorted_dict, lookup-sorted_dict, map_option}
use olivechain.Result.{ok, err}
use olivechain.Portal.Digest.{same_bytes}
use olivechain.Portal.Identity.{PortalLibrary, PortalIdentity, fail, password_digest}
use olivechain.Portal.Login.{authenticate_user}
use olivechain.Portal.Login.Stored.{login_result, authenticate_user-stored}
use olivechain.Portal.NewUser.{NewUser, user_columns}
use olivechain.Portal.NewUser.Bounds.{IsAdmissible, admit-IsAdmissible}
use olivechain.Portal.Rows.Stored.{stored, get_or-stored}
use olivechain.Portal.Store.{UsersFile, Store, write_store, load_store, users}
use olivechain.Portal.Store.Written.{load_store-IsCurrent, users-write_store}
use olivechain.Portal.Users.{get_user, add_user}
use olivechain.Portal.Users.Admission.{add_user-Wrote, user_columns-HoldsPassword}
use olivechain.Portal.Users.Passwords.{get_user-stored, lookup-inserted}

active_result :
    (same active : Bool) (row : Dict Value)
    → active ≡ true
    → login_result same active row
      ≡ (if same then ok row else err (fail "invalid username or password"))
active_result true active row h = ap (λ b. if b then ok row else err (fail "user is disabled")) h
active_result false active row h = refl

module _ (L : PortalLibrary) (F : Floats) where
  -- The users of a file that is loaded without being changed.
  abbrev pub Loads : ℕ → UsersFile → Dict Value → Type 0
  Loads now s rows = users L F now s ≡ (ok rows, s)

  -- What add_user has written: the store that it loaded, with the new row.
  record HasAdded (u : NewUser) (now : ℕ) (salt : List ℕ) (s s' : UsersFile) : Type 0 where
    name : String
    spec : PortalIdentity
    store : Store
    admissible : IsAdmissible L u name spec
    loaded : load_store L F now s ≡ (ok store, (load_store L F now s).1)
    fresh : contains name store.users ≡ false
    written :
        s'
        ≡ write_store (record store {
          users =
              insert name
                (dict_value (user_columns L name (L.strip u.display_name) spec now salt u))
                store.users;
        })

  add_user-HasAdded :
      (u : NewUser) (now : ℕ) (salt : List ℕ) (s s' : UsersFile) (shown : Dict Value)
      → add_user L F u now salt s ≡ (ok shown, s')
      → HasAdded u now salt s s'
  add_user-HasAdded u now salt s s' shown h =
      let (p, store, admitted, loaded, fresh, written) =
        add_user-Wrote L F u now salt s s' shown h in
      let (admissible, as_shown) = admit-IsAdmissible L u p admitted in
      record {
        name = p.0;
        spec = p.1;
        store = store;
        admissible = admissible;
        loaded = loaded;
        fresh = fresh;
        written =
            written
            ∙ ap
                (λ t. write_store (record store {
                  users = insert p.0 (dict_value (user_columns L p.0 t p.1 now salt u)) store.users;
                }))
                as_shown;
      }

  -- add_user returns only for a name that normalize_username takes and that no user has, an
  -- organization and a role that validate_identity takes, a password of 10 to 256 characters, a
  -- name to show of 1 to 120 and an alias of 1 to 160; and after it the file holds the users that
  -- were loaded before, with keys in order, and the new user's columns under the name, and no
  -- more; provided that 2 equals itself as a float.
  pub add_user-Admits :
      (version : F.eq (F.of_int (pos 2)) (F.of_int (pos 2)) ≡ true) (u : NewUser) (now : ℕ)
      (salt : List ℕ) (s s' : UsersFile) (shown : Dict Value)
      → add_user L F u now salt s ≡ (ok shown, s')
      → (later : ℕ)
      → (name : String) × (spec : PortalIdentity) × (store : Store) × (rows : Dict Value)
        × IsAdmissible L u name spec
        × ((load_store L F now s).0 ≡ ok store)
        × (contains name store.users ≡ false)
        × Loads later s' rows
        × ((other : String)
            → lookup other rows ≡ (
                if name == other
                then some (stored (user_columns L name (L.strip u.display_name) spec now salt u))
                else map_option (lookup other store.users)))
  unfolding sorted
  add_user-Admits version u now salt s s' shown h later =
      let a = add_user-HasAdded u now salt s s' shown h in
      let columns = user_columns L a.name (L.strip u.display_name) a.spec now salt u in
      let store' : Store = record a.store {
        users = insert a.name (dict_value columns) a.store.users;
      } in
      (
        a.name,
        a.spec,
        a.store,
        sorted_dict store'.users,
        a.admissible,
        ap (λ r. r.0) a.loaded,
        a.fresh,
        subst (λ s. Loads later s (sorted_dict store'.users)) (sym a.written)
            (users-write_store L F later store'
              (load_store-IsCurrent L F version now s _ a.store a.loaded)),
        λ other.
            lookup-sorted_dict other store'.users
            ∙ ap map_option (lookup-insert a.name other (dict_value columns) a.store.users)
            ∙ if-ap map_option (a.name == other) (some (dict_value columns))
                (lookup other a.store.users),
      )

  new-active :
      (name : String) (spec : PortalIdentity) (now : ℕ) (salt : List ℕ) (u : NewUser)
      → truthy F (
          get_or
            (boolean true)
            "active"
            (sorted_dict (user_columns L name (L.strip u.display_name) spec now salt u)))
        ≡ true
  unfolding truthy sorted user_columns lookup
  new-active name spec now salt u = ap (truthy F) (
      get_or-stored (boolean true) "active"
        (user_columns L name (L.strip u.display_name) spec now salt u) (boolean true) refl)

  -- After add_user has returned, get_user finds the user, active, and a login for the name leaves
  -- the file as it is and returns that row exactly when the attempt's digest under the salt of the
  -- call is that of the password, and else fails as an invalid login; provided that base64 is
  -- decoded to what was encoded, and that 2 equals itself as a float.
  pub add_user-authenticate_user :
      (version : F.eq (F.of_int (pos 2)) (F.of_int (pos 2)) ≡ true)
      (decodes : (bytes : List ℕ) → L.b64decode (L.b64encode bytes) ≡ some bytes) (u : NewUser)
      (now : ℕ) (salt : List ℕ) (s s' : UsersFile) (shown : Dict Value)
      → add_user L F u now salt s ≡ (ok shown, s')
      → (attempt : String) (later : ℕ)
      → (row : Dict Value) × (get_user L F u.username true later s' ≡ (ok row, s'))
        × (authenticate_user L F u.username attempt later s' ≡ (
          (if same_bytes (password_digest L u.password salt) (password_digest L attempt salt)
              then ok row
              else err (fail "invalid username or password")),
          s',
        ))
  add_user-authenticate_user version decodes u now salt s s' shown h attempt later =
      let a = add_user-HasAdded u now salt s s' shown h in
      let columns = user_columns L a.name (L.strip u.display_name) a.spec now salt u in
      let store' : Store = record a.store {
        users = insert a.name (dict_value columns) a.store.users;
      } in
      let current = load_store-IsCurrent L F version now s _ a.store a.loaded in
      let there = lookup-inserted L F a.name (dict_value columns) a.store.users in
      let active = new-active a.name a.spec now salt u in
      (
        sorted_dict columns,
        subst (λ s. get_user L F u.username true later s ≡ (ok (sorted_dict columns), s))
            (sym a.written)
            (get_user-stored L F u.username a.name true later store' columns current
                a.admissible.named there
              ∙ ap
                  (λ (b : Bool). (
                    (if not b then err (fail "user is disabled") else ok (sorted_dict columns)),
                    write_store store',
                  ))
                  active),
        subst
            (λ s. authenticate_user L F u.username attempt later s ≡ (
              (if same_bytes (password_digest L u.password salt) (password_digest L attempt salt)
                  then ok (sorted_dict columns)
                  else err (fail "invalid username or password")),
              s,
            ))
            (sym a.written)
            (authenticate_user-stored L F decodes u.username a.name u.password attempt salt later
                store' columns current a.admissible.named there
                (user_columns-HoldsPassword L F a.name (L.strip u.display_name) a.spec now salt u)
              ∙ ap (λ r. (r, write_store store'))
                  (active_result
                    (same_bytes (password_digest L u.password salt)
                      (password_digest L attempt salt))
                    _ (sorted_dict columns) active)),
      )

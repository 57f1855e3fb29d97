-- ===== src/Portal/Users/Passwords.antt =====
-- Logging in after a password has been set.
use mathlib.Core.Path.{subst}
use olivechain.Base.{
  ℕ, String, Bool, true, false, some, [], ◌∷◌, Dict, List, lookup, insert, update, lookup-insert,
  ◌≡◌, sym, ◌∙◌, ap, eq_refl, if◌then◌else◌, not, ◌&&◌,
}
use olivechain.Base.Int.{pos}
use olivechain.Effects.{reads, ◌>>=◌}
use olivechain.Effects.Bind.{bind-ran}
use olivechain.Json.{Value, Floats, boolean, int, dict_value}
use olivechain.Json.Access.{get_or, truthy}
use olivechain.Json.Sorted.{sorted_dict}
use olivechain.Result.{ok, err}
use olivechain.Portal.Digest.{same_bytes}
use olivechain.Portal.Identity.{PortalLibrary, fail, normalize_username, password_digest}
use olivechain.Portal.Login.{authenticate_user}
use olivechain.Portal.Login.Stored.{login_result, authenticate_user-stored}
use olivechain.Portal.NewUser.{password_columns}
use olivechain.Portal.Rows.{find_row, pick_user}
use olivechain.Portal.Rows.Accounts.{dict_value-injective}
use olivechain.Portal.Rows.Stored.{set_row-ok, pick_user-stored}
use olivechain.Portal.Store.{UsersFile, Store, write_store, load_store, users, is_current}
use olivechain.Portal.Store.Written.{load_store-IsCurrent, users-write_store}
use olivechain.Portal.Users.{get_user, set_user_password}
use olivechain.Portal.Users.Admission.{
  set_user_password-Wrote, with_password, with_password-HoldsPassword,
}

module _ (L : PortalLibrary) (F : Floats) where
  pub get_user-stored :
      (username name : String) (required : Bool) (now : ℕ) (store : Store) (d : Dict Value)
      → is_current L F store.content ≡ true
      → normalize_username L username ≡ ok name
      → lookup name store.users ≡ some (dict_value d)
      → get_user L F username required now (write_store store) ≡ (
        (if required && not (truthy F (get_or (boolean true) "active" (sorted_dict d)))
            then err (fail "user is disabled")
            else ok (sorted_dict d)),
        write_store store,
      )
  unfolding get_user
  get_user-stored username name required now store d current named found =
      bind-ran (reads (λ s. normalize_username L username))
        (λ key. users L F now >>= λ rows. reads (λ s. pick_user F key required rows))
        (write_store store) name (write_store store) (ap (λ r. (r, write_store store)) named)
      ∙ bind-ran (users L F now) (λ rows s. (pick_user F name required rows, s)) (write_store store)
          (sorted_dict store.users) (write_store store) (users-write_store L F now store current)
      ∙ ap (λ r. (r, write_store store)) (pick_user-stored F name required d store.users found)

  -- The row that `set_user_password` has written.
  set_user_password-Row :
      (username password : String) (now : ℕ) (salt : List ℕ) (s s' : UsersFile)
      → set_user_password L F username password now salt s ≡ (ok tt, s')
      → (name : String) × (store : Store) × (d : Dict Value) × (normalize_username L username
          ≡ ok name)
        × (load_store L F now s ≡ (ok store, (load_store L F now s).1))
        × (find_row name store.users ≡ some (dict_value d))
        × (s'
            ≡ write_store (record store {
              users = insert name (dict_value (with_password L F password now salt d)) store.users;
            }))
  set_user_password-Row username password now salt s s' h =
      let (name, store, row, row₁, row₂, named, valid, loaded, found, set₁, set₂, written) =
        set_user_password-Wrote L F username password now salt s s' h in
      let (d, is, made₁) = set_row-ok (password_columns L password salt) row row₁ set₁ in
      let (d₁, is₁, made₂) = set_row-ok (("updated_at", int (pos now)) ∷ []) row₁ row₂ set₂ in
      let like : d₁ ≡ update d (password_columns L password salt) =
        dict_value-injective d₁ _ (sym is₁ ∙ made₁) in
      let row_is : row₂ ≡ dict_value (with_password L F password now salt d) =
        made₂ ∙ ap (λ e. dict_value (update e (("updated_at", int (pos now)) ∷ []))) like in
      (
        name,
        store,
        d,
        named,
        loaded,
        found ∙ ap some is,
        written ∙ ap (λ r. write_store (record store { users = insert name r store.users })) row_is,
      )

  pub lookup-inserted :
      (name : String) (row : Value) (rows : Dict Value)
      → lookup name (insert name row rows) ≡ some row
  lookup-inserted name row rows =
      lookup-insert name name row rows
      ∙ ap (λ b. if b then some row else lookup name rows) (eq_refl name)

  -- After set_user_password has returned, a login with any attempt at the password, at any time,
  -- leaves the file as it is; it fails as an invalid login where the attempt's digest under the
  -- salt of the call is not that of the new password, fails as disabled where the digests agree
  -- and the user is not active, and else returns the row that get_user finds for the name;
  -- provided that base64 is decoded to what was encoded, and that 2 equals itself as a float.
  pub set_user_password-authenticate_user :
      (version : F.eq (F.of_int (pos 2)) (F.of_int (pos 2)) ≡ true)
      (decodes : (bytes : List ℕ) → L.b64decode (L.b64encode bytes) ≡ some bytes)
      (username password : String) (now : ℕ) (salt : List ℕ) (s s' : UsersFile)
      → set_user_password L F username password now salt s ≡ (ok tt, s')
      → (attempt : String) (later : ℕ)
      → (row : Dict Value) × (get_user L F username false later s' ≡ (ok row, s'))
        × (authenticate_user L F username attempt later s' ≡ (
          login_result
              (same_bytes (password_digest L password salt) (password_digest L attempt salt))
              (truthy F (get_or (boolean true) "active" row))
              row,
          s',
        ))
  set_user_password-authenticate_user version decodes username password now salt s s' h attempt
        later =
      let (name, store, d, named, loaded, found, written) =
        set_user_password-Row username password now salt s s' h in
      let e = with_password L F password now salt d in
      let store' : Store = record store { users = insert name (dict_value e) store.users } in
      let current = load_store-IsCurrent L F version now s _ store loaded in
      let there = lookup-inserted name (dict_value e) store.users in
      (
        sorted_dict e,
        subst (λ s. get_user L F username false later s ≡ (ok (sorted_dict e), s)) (sym written)
            (get_user-stored username name false later store' e current named there),
        subst
            (λ s. authenticate_user L F username attempt later s ≡ (
              login_result
                  (same_bytes (password_digest L password salt) (password_digest L attempt salt))
                  (truthy F (get_or (boolean true) "active" (sorted_dict e))) (sorted_dict e),
              s,
            ))
            (sym written)
            (authenticate_user-stored L F decodes username name password attempt salt later store' e
              current named there (with_password-HoldsPassword L F password now salt d)),
      )

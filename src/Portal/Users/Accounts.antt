-- ===== src/Portal/Users/Accounts.antt =====
-- The invariant of the file of users, over any sequence of calls.
use mathlib.Core.Path.{subst}
use olivechain.Base.{
  ℕ, String, Bool, true, false, none, [], ◌∷◌, Dict, List, lookup, insert, erase, contains, ◌≡◌,
  refl, sym, ◌∙◌, ap, ◌⊎◌, inl, inr,
}
use olivechain.Base.Int.{pos}
use olivechain.Base.Filter.{if-cases}
use olivechain.Effects.{reads, modify}
use olivechain.Effects.Ensures.{
  Ensures, bind-Ensures, done-Ensures, if-Ensures, reads-Ensures, pure-Ensures, or_raise-Ensures,
  raise_if-Ensures, modify-Ensures,
}
use olivechain.Json.{Value, Floats, boolean, int, dict_value}
use olivechain.Result.{Result, ok, ok-injective, portal_auth_error}
use olivechain.Portal.Identity.{
  PortalLibrary, PortalIdentity, fail, is_username, validate_identity, validate_password,
  normalize_username,
}
use olivechain.Portal.Rows.{find_row, set_row, public_user}
use olivechain.Portal.Rows.Accounts.{
  IsAccount, AreAccounts, set_row-IsAccount, sorted_dict-AreAccounts, insert-AreAccounts,
  erase-AreAccounts, find_row-IsAccount,
}
use olivechain.Portal.Store.{UsersFile, Store, missing, load_store, write_store, is_current}
use olivechain.Portal.Store.Written.{
  load_store-write_store, reloaded, is_current-written, is_current-new,
}
use olivechain.Portal.NewUser.{NewUser, admit, user_columns, password_columns}
use olivechain.Portal.NewUser.Bounds.{admit-IsAdmissible}
use olivechain.Portal.Users.{
  is_user_of, write_row, add_user, set_user_password, set_user_status, delete_password,
}

pub no_rows : AreAccounts []
unfolding lookup
no_rows name row h = cc

abbrev IsRow : String → Value → Type 0
IsRow name row = (d : Dict Value) × (row ≡ dict_value d) × IsAccount name d

module _ (L : PortalLibrary) (F : Floats) where
  abbrev pub IsSoundStore : Store → Type 0
  IsSoundStore store = (is_current L F store.content ≡ true) × AreAccounts store.users

  -- There is no file yet, or the one that there is has been written from accounts.
  abbrev pub IsSoundFile : UsersFile → Type 0
  IsSoundFile file =
      (file ≡ missing) ⊎ ((store : Store) × IsSoundStore store × (file ≡ write_store store))

  normalize_username-formed :
      (username name : String) → normalize_username L username ≡ ok name → is_username name ≡ true
  unfolding normalize_username
  normalize_username-formed username name h =
      elim (if-cases (is_username (L.lower (L.strip username))) _ _ _ h) [
        | inl (formed, same) ↦ ap is_username (sym (ok-injective same)) ∙ formed
        | inr (bad, raised) ↦ cc
      ]

  module _ (version : F.eq (F.of_int (pos 2)) (F.of_int (pos 2)) ≡ true) where
    pub reloaded-IsSound : (store : Store) → IsSoundStore store → IsSoundStore (reloaded store)
    reloaded-IsSound store (current, accounts) =
        (is_current-written L F store ∙ current, sorted_dict-AreAccounts store.users accounts)

    -- What is known of a load, from its outcome.
    abbrev HasLoaded : Result Store × UsersFile → Type 0
    HasLoaded p = IsSoundFile p.1 × ((store : Store) → p.0 ≡ ok store → IsSoundStore store)

    missing-HasLoaded : (now : ℕ) → HasLoaded (load_store L F now missing)
    unfolding load_store lookup
    missing-HasLoaded now = (
      inl refl,
      λ store h. subst IsSoundStore (ok-injective h) (is_current-new L F version [], no_rows),
    )

    load_store-Holds : (now : ℕ) (s : UsersFile) → IsSoundFile s → HasLoaded (load_store L F now s)
    load_store-Holds now s (inl none_yet) =
        subst (λ s. HasLoaded (load_store L F now s)) (sym none_yet) (missing-HasLoaded now)
    load_store-Holds now s (inr (st, sound, written)) =
        subst HasLoaded
          (sym (ap (load_store L F now) written ∙ load_store-write_store L F now st sound.0))
          (
            inr (st, sound, refl),
            λ store h. subst IsSoundStore (ok-injective h) (reloaded-IsSound st sound),
          )

    pub load_store-Ensures : (now : ℕ) → Ensures IsSoundFile (load_store L F now) IsSoundStore
    load_store-Ensures now = record { at = load_store-Holds now }

    written-Ensures :
        (store : Store)
        → IsSoundStore store
        → Ensures IsSoundFile (modify (λ s. write_store store)) (λ done. Unit {0})
    written-Ensures store sound = modify-Ensures _ (λ s p. inr (store, sound, refl))

    -- A row of an account with other columns assigned is one.
    IsRow-Ensures :
        (name : String) (changes : Dict Value) (row : Value) (rows : Dict Value)
        → lookup "username" changes ≡ none
        → lookup "org_id" changes ≡ none
        → lookup "role" changes ≡ none
        → IsRow name row
        → Ensures IsSoundFile (reads (λ s. set_row changes row)) (IsRow name)
    IsRow-Ensures name changes row rows h₁ h₂ h₃ (d, is, account) = record {
      at = λ s p. (
        p,
        λ row' h.
            set_row-IsAccount name d changes row' h₁ h₂ h₃ account
              (ap (set_row changes) (sym is) ∙ h),
      );
    }

    write_row-Ensures :
        (name : String) (row : Value) (store : Store)
        → IsSoundStore store
        → IsRow name row
        → Ensures IsSoundFile (write_row name row store) (λ done. Unit {0})
    write_row-Ensures name row store (current, accounts) (d, is, account) =
        written-Ensures (record store { users = insert name row store.users })
          (
            current,
            subst (λ row. AreAccounts (insert name row store.users)) (sym is)
                (insert-AreAccounts name d store.users account accounts),
          )

    pub set_user_status-Ensures :
        (username : String) (active : Bool) (now : ℕ)
        → Ensures IsSoundFile (set_user_status L F username active now) (λ shown. Unit {0})
    unfolding set_user_status lookup
    set_user_status-Ensures username active now =
        bind-Ensures (reads-Ensures (normalize_username L username)) λ name named.
          bind-Ensures (load_store-Ensures now) λ store sound.
            bind-Ensures (or_raise-Ensures (find_row name store.users) (fail "unknown user"))
              λ row found.
                bind-Ensures
                  (IsRow-Ensures name
                    (("active", boolean active) ∷ ("updated_at", int (pos now)) ∷ []) row
                    store.users refl refl refl
                    (find_row-IsAccount name row store.users sound.1 found))
                  λ row' is_row.
                    bind-Ensures (write_row-Ensures name row' store sound is_row)
                      λ done tt. done-Ensures (reads-Ensures (public_user F row'))

    pub set_user_password-Ensures :
        (username password : String) (now : ℕ) (salt : List ℕ)
        → Ensures IsSoundFile (set_user_password L F username password now salt) (λ done. Unit {0})
    unfolding set_user_password lookup
    set_user_password-Ensures username password now salt =
        bind-Ensures (reads-Ensures (normalize_username L username)) λ name named.
          bind-Ensures (reads-Ensures (validate_password password)) λ done valid.
            bind-Ensures (load_store-Ensures now) λ store sound.
              bind-Ensures (or_raise-Ensures (find_row name store.users) (fail "unknown user"))
                λ row found.
                  bind-Ensures
                    (IsRow-Ensures name (password_columns L password salt) row store.users refl refl
                      refl (find_row-IsAccount name row store.users sound.1 found))
                    λ row₁ is_row₁.
                      bind-Ensures
                        (IsRow-Ensures name (("updated_at", int (pos now)) ∷ []) row₁ store.users
                          refl refl refl is_row₁)
                        λ row₂ is_row₂. write_row-Ensures name row₂ store sound is_row₂

    new-IsAccount :
        (name display_name : String) (spec : PortalIdentity) (now : ℕ) (salt : List ℕ) (u : NewUser)
        → is_username name ≡ true
        → validate_identity u.org_id u.role ≡ ok spec
        → IsAccount name (user_columns L name display_name spec now salt u)
    unfolding user_columns lookup
    new-IsAccount name display_name spec now salt u formed valid = record {
      formed = formed;
      named = refl;
      org_id = u.org_id;
      role = u.role;
      spec = spec;
      belongs = refl;
      acts = refl;
      valid = valid;
    }

    pub add_user-Ensures :
        (u : NewUser) (now : ℕ) (salt : List ℕ)
        → Ensures IsSoundFile (add_user L F u now salt) (λ shown. Unit {0})
    unfolding add_user
    add_user-Ensures u now salt = bind-Ensures (reads-Ensures (admit L u)) λ p admitted.
        let (a, shown) = admit-IsAdmissible L u p admitted in
        bind-Ensures (load_store-Ensures now) λ store sound.
          bind-Ensures
            (raise_if-Ensures (contains p.0 store.users)
              (portal_auth_error "username {} already exists" (p.0 ∷ [])))
            λ done fresh.
              bind-Ensures
                (write_row-Ensures p.0 (dict_value (user_columns L p.0 p.2 p.1 now salt u)) store
                  sound
                  (
                    user_columns L p.0 p.2 p.1 now salt u,
                    refl,
                    new-IsAccount p.0 p.2 p.1 now salt u
                        (normalize_username-formed u.username p.0 a.named) a.placed,
                  ))
                λ done tt. done-Ensures (
                  reads-Ensures
                    (public_user F (dict_value (user_columns L p.0 p.2 p.1 now salt u))))

    pub delete_password-Ensures :
        (org_id role : String) (now : ℕ)
        → Ensures IsSoundFile (delete_password L F org_id role now) (λ deleted. Unit {0})
    unfolding delete_password
    delete_password-Ensures org_id role now =
        bind-Ensures (reads-Ensures (normalize_username L role)) λ name named.
          bind-Ensures (load_store-Ensures now) λ store sound.
            bind-Ensures (reads-Ensures (is_user_of org_id role (find_row name store.users)))
              λ same found.
                if-Ensures same
                  (λ h.
                    bind-Ensures
                      (written-Ensures (record store { users = erase name store.users })
                        (sound.0, erase-AreAccounts name store.users sound.1))
                      λ done tt. done-Ensures (pure-Ensures true))
                  (λ h. done-Ensures (pure-Ensures false))

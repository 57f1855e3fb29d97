-- ===== src/Portal/Users/Admission.antt =====
-- What the operations on accounts admit, and what they write.
use olivechain.Base.{
  ℕ, String, Bool, false, some, [], ◌∷◌, Dict, List, lookup, insert, update, contains,
  lookup-insert, ◌≡◌, refl, inl, inr, arith, Bool-cases, Option-cases,
}
use olivechain.Base.Int.{pos}
use olivechain.Json.{Value, Floats, boolean, int, dict_value}
use olivechain.Result.{ok, Result-cases}
use olivechain.Portal.Identity.{
  PortalLibrary, PortalIdentity, validate_password, normalize_username,
}
use olivechain.Portal.Login.Stored.{HoldsPassword}
use olivechain.Portal.Rows.{find_row, set_row}
use olivechain.Portal.Store.{UsersFile, Store, load_store, write_store}
use olivechain.Portal.NewUser.{NewUser, admit, user_columns, password_columns}
use olivechain.Portal.Users.{add_user, set_user_password, set_user_status}

module _ (L : PortalLibrary) (F : Floats) where
  -- `set_user_password` has found a row and written it with the new columns.
  pub set_user_password-Wrote :
      (username password : String) (now : ℕ) (salt : List ℕ) (s s' : UsersFile)
      → set_user_password L F username password now salt s ≡ (ok tt, s')
      → (name : String) × (store : Store) × (row row₁ row₂ : Value) × (normalize_username L username
          ≡ ok name)
        × (validate_password password ≡ ok tt)
        × (load_store L F now s ≡ (ok store, (load_store L F now s).1))
        × (find_row name store.users ≡ some row)
        × (set_row (password_columns L password salt) row ≡ ok row₁)
        × (set_row (("updated_at", int (pos now)) ∷ []) row₁ ≡ ok row₂)
        × (s' ≡ write_store (record store { users = insert name row₂ store.users }))
  unfolding set_user_password
  set_user_password-Wrote username password now salt s s' h =
      elim (Result-cases (normalize_username L username)) [
        | inr (e, bad) ↦ absurd (ground arith)
        | inl (name, named) ↦ elim (Result-cases (validate_password password)) [
          | inr (e, bad) ↦ absurd (ground arith)
          | inl (done, valid) ↦ elim (Result-cases (load_store L F now s).0) [
            | inr (e, bad) ↦ absurd (ground arith)
            | inl (store, loaded) ↦ elim (Option-cases (find_row name store.users)) [
              | inl missing ↦ absurd (ground arith)
              | inr (row, found) ↦
                  elim (Result-cases (set_row (password_columns L password salt) row)) [
                    | inr (e, bad) ↦ absurd (ground arith)
                    | inl (row₁, set₁) ↦
                        elim (Result-cases (set_row (("updated_at", int (pos now)) ∷ []) row₁)) [
                          | inr (e, bad) ↦ absurd (ground arith)
                          | inl (row₂, set₂) ↦ (
                            name,
                            store,
                            row,
                            row₁,
                            row₂,
                            named,
                            valid,
                            (λ i. (loaded i, (load_store L F now s).1)),
                            found,
                            set₁,
                            set₂,
                            ground arith,
                          )
                        ]
                  ]
            ]
          ]
        ]
      ]

  -- What a row is after `set_user_password`.
  abbrev pub with_password : String → ℕ → List ℕ → Dict Value → Dict Value
  with_password password now salt d =
      update (update d (password_columns L password salt)) (("updated_at", int (pos now)) ∷ [])

  pub with_password-HoldsPassword :
      (password : String) (now : ℕ) (salt : List ℕ) (d : Dict Value)
      → HoldsPassword L F (with_password password now salt d) password salt
  unfolding update
  with_password-HoldsPassword password now salt d = record {
    salted = simp lookup-insert;
    hashed = simp lookup-insert;
    rounds = simp lookup-insert;
  }

  pub user_columns-HoldsPassword :
      (username display_name : String) (spec : PortalIdentity) (now : ℕ) (salt : List ℕ)
      (u : NewUser)
      → HoldsPassword L F (user_columns L username display_name spec now salt u) u.password salt
  unfolding user_columns lookup
  user_columns-HoldsPassword username display_name spec now salt u = record {
    salted = refl;
    hashed = refl;
    rounds = refl;
  }

  -- `add_user` has admitted its arguments and written a row for a name that had none.
  pub add_user-Wrote :
      (u : NewUser) (now : ℕ) (salt : List ℕ) (s s' : UsersFile) (shown : Dict Value)
      → add_user L F u now salt s ≡ (ok shown, s')
      → (p : String × PortalIdentity × String) × (store : Store) × (admit L u ≡ ok p)
        × (load_store L F now s ≡ (ok store, (load_store L F now s).1))
        × (contains p.0 store.users ≡ false)
        × (s'
            ≡ write_store (record store {
              users = insert p.0 (dict_value (user_columns L p.0 p.2 p.1 now salt u)) store.users;
            }))
  unfolding add_user
  add_user-Wrote u now salt s s' shown h = elim (Result-cases (admit L u)) [
    | inr (e, bad) ↦ absurd (ground arith)
    | inl (p, admitted) ↦ elim (Result-cases (load_store L F now s).0) [
      | inr (e, bad) ↦ absurd (ground arith)
      | inl (store, loaded) ↦ elim (Bool-cases (contains p.0 store.users)) [
        | inl taken ↦ absurd (ground arith)
        | inr fresh ↦
            (p, store, admitted, λ i. (loaded i, (load_store L F now s).1), fresh, ground arith)
      ]
    ]
  ]

  -- The state after `set_user_status` has returned.
  pub set_user_status-Wrote :
      (username : String) (active : Bool) (now : ℕ) (s s' : UsersFile) (shown : Dict Value)
      → set_user_status L F username active now s ≡ (ok shown, s')
      → (name : String) × (store : Store) × (row row' : Value) × (normalize_username L username
          ≡ ok name)
        × (load_store L F now s ≡ (ok store, (load_store L F now s).1))
        × (find_row name store.users ≡ some row)
        × (set_row (("active", boolean active) ∷ ("updated_at", int (pos now)) ∷ []) row ≡ ok row')
        × (s' ≡ write_store (record store { users = insert name row' store.users }))
  unfolding set_user_status
  set_user_status-Wrote username active now s s' shown h =
      elim (Result-cases (normalize_username L username)) [
        | inr (e, bad) ↦ absurd (ground arith)
        | inl (name, named) ↦ elim (Result-cases (load_store L F now s).0) [
          | inr (e, bad) ↦ absurd (ground arith)
          | inl (store, loaded) ↦ elim (Option-cases (find_row name store.users)) [
            | inl missing ↦ absurd (ground arith)
            | inr (row, found) ↦
                elim (Result-cases
                  (set_row (("active", boolean active) ∷ ("updated_at", int (pos now)) ∷ []) row)) [
                    | inr (e, bad) ↦ absurd (ground arith)
                    | inl (row', changed) ↦ (
                      name,
                      store,
                      row,
                      row',
                      named,
                      λ i. (loaded i, (load_store L F now s).1),
                      found,
                      changed,
                      ground arith,
                    )
                  ]
          ]
        ]
      ]

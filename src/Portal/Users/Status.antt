-- ===== src/Portal/Users/Status.antt =====
-- A user whose account has been disabled, and one who has been added.
use mathlib.Core.Path.{subst}
use olivechain.Base.{
  ℕ, String, Bool, true, false, not, ◌||◌, some, [], ◌∷◌, Dict, lookup, insert, update,
  lookup-insert, ◌≡◌, refl, sym, ◌∙◌, ap, if◌then◌else◌,
}
use olivechain.Base.Int.{pos}
use olivechain.Effects.Bind.{bind-ran}
use olivechain.Json.{Value, Floats, boolean, int, dict_value}
use olivechain.Json.Access.{get_or, truthy}
use olivechain.Json.Sorted.{sorted, sorted_dict}
use olivechain.Result.{ok, err, raise_if, bind-ok, ok-injective}
use olivechain.Portal.Digest.{digests, judge, same_bytes}
use olivechain.Portal.Identity.{PortalLibrary, fail, normalize_username}
use olivechain.Portal.Login.{authenticate_user, row_at, name_or_invalid}
use olivechain.Portal.Login.Stored.{row-found, name_or_invalid-ok}
use olivechain.Portal.Rows.{row_get}
use olivechain.Portal.Rows.Stored.{stored, set_row-ok, row_get-stored, get_or-stored}
use olivechain.Portal.Store.{UsersFile, Store, write_store, users, is_current}
use olivechain.Portal.Store.Written.{load_store-IsCurrent, users-write_store}
use olivechain.Portal.Users.{get_user, set_user_status}
use olivechain.Portal.Users.Admission.{set_user_status-Wrote}
use olivechain.Portal.Users.Passwords.{get_user-stored, lookup-inserted}

module _ (L : PortalLibrary) (F : Floats) where
  not_disabled : (b : Bool) (t : String) → raise_if (not b) (fail t) ≡ ok tt → b ≡ true
  not_disabled true t h = refl
  not_disabled false t h = cc

  -- A login that succeeds is of an active user.
  judge-Active :
      (row : Value) (attempt : String) (d : Dict Value)
      → judge L F row attempt ≡ ok d
      → (v : Value) × (row_get (boolean true) "active" row ≡ ok v) × (truthy F v ≡ true)
  unfolding judge
  judge-Active row attempt d h =
      let (pair, _, h₁) = bind-ok (digests L F row attempt) _ d h in
      let (_, _, h₂) =
        bind-ok
          (raise_if (not (truthy F row) || not (same_bytes pair.0 pair.1))
            (fail "invalid username or password"))
          _ d h₁ in
      let (v, got, h₃) = bind-ok (row_get (boolean true) "active" row) _ d h₂ in
      let (_, active, _) = bind-ok (raise_if (not (truthy F v)) (fail "user is disabled")) _ d h₃ in
      (v, got, not_disabled _ "user is disabled" active)

  abbrev disabled : ℕ → Dict Value → Dict Value
  disabled now d = update d (("active", boolean false) ∷ ("updated_at", int (pos now)) ∷ [])

  disabled-active :
      (now : ℕ) (d : Dict Value) → lookup "active" (disabled now d) ≡ some (boolean false)
  unfolding update
  disabled-active now d = simp lookup-insert

  disabled-read :
      (now : ℕ) (d : Dict Value)
      → get_or (boolean true) "active" (sorted_dict (disabled now d)) ≡ boolean false
  unfolding sorted
  disabled-read now d =
      get_or-stored (boolean true) "active" (disabled now d) (boolean false) (disabled-active now d)

  disabled-judged :
      (now : ℕ) (d : Dict Value) (attempt : String) (e : Dict Value)
      → ¬ (judge L F (stored (disabled now d)) attempt ≡ ok e)
  unfolding truthy
  disabled-judged now d attempt e h =
      let (v, got, active) = judge-Active (stored (disabled now d)) attempt e h in
      let is : v ≡ boolean false =
        ok-injective (sym got ∙ row_get-stored (boolean true) "active" (disabled now d))
        ∙ disabled-read now d in
      cc (sym active ∙ ap (truthy F) is)

  authenticate_user-written :
      (username name attempt : String) (now : ℕ) (store : Store) (d : Dict Value)
      → is_current L F store.content ≡ true
      → normalize_username L username ≡ ok name
      → lookup name store.users ≡ some (dict_value d)
      → (authenticate_user L F username attempt now (write_store store)).0
        ≡ judge L F (stored d) attempt
  unfolding authenticate_user
  authenticate_user-written username name attempt now store d current named found =
      ap (λ r. r.0)
        (bind-ran (users L F now)
          (λ rows s. (judge L F (row_at (name_or_invalid L F username) rows) attempt, s))
          (write_store store) (sorted_dict store.users) (write_store store)
          (users-write_store L F now store current))
      ∙ ap (λ n. judge L F (row_at n (sorted_dict store.users)) attempt)
          (name_or_invalid-ok L F username name named)
      ∙ ap (λ row. judge L F row attempt) (row-found name d store.users found)

  -- After set_user_status has returned for a user that it was to disable, get_user with
  -- require_active says that the user is disabled, and no login succeeds, whatever the password
  -- and the time; provided that 2 equals itself as a float.
  pub set_user_status-Disables :
      (version : F.eq (F.of_int (pos 2)) (F.of_int (pos 2)) ≡ true) (username : String) (now : ℕ)
      (s s' : UsersFile) (shown : Dict Value)
      → set_user_status L F username false now s ≡ (ok shown, s')
      → (attempt : String) (later : ℕ)
      → (get_user L F username true later s' ≡ (err (fail "user is disabled"), s'))
        × ((row : Dict Value) → ¬ ((authenticate_user L F username attempt later s').0 ≡ ok row))
  unfolding truthy
  set_user_status-Disables version username now s s' shown h attempt later =
      let (name, store, row, row', named, loaded, found, changed, written) =
        set_user_status-Wrote L F username false now s s' shown h in
      let (d, is, made) = set_row-ok _ row row' changed in
      let store' : Store = record store {
        users = insert name (dict_value (disabled now d)) store.users;
      } in
      let is_written : s' ≡ write_store store' =
        written ∙ ap (λ r. write_store (record store { users = insert name r store.users })) made in
      let current = load_store-IsCurrent L F version now s _ store loaded in
      let there = lookup-inserted L F name (dict_value (disabled now d)) store.users in
      (
        subst (λ s. get_user L F username true later s ≡ (err (fail "user is disabled"), s))
            (sym is_written)
            (get_user-stored L F username name true later store' (disabled now d) current named
                there
              ∙ ap
                  (λ v. (
                    (if not (truthy F v)
                        then err (fail "user is disabled")
                        else ok (sorted_dict (disabled now d))),
                    write_store store',
                  ))
                  (disabled-read now d)),
        λ row ok_row. disabled-judged now d attempt row (
            sym (
              authenticate_user-written username name attempt later store' (disabled now d) current
                named there)
            ∙ ap (λ s. (authenticate_user L F username attempt later s).0) (sym is_written)
            ∙ ok_row),
      )

-- ===== src/Portal/Users/Runs.antt =====
-- Sequences of the calls that write the file of users, on a server that starts without one.
use mathlib.Core.Path.{subst}
use olivechain.Base.{ℕ, String, Bool, true, List, [], ◌∷◌, Dict, contains, ◌≡◌, refl, sym, inl, inr}
use olivechain.Base.Int.{pos}
use olivechain.Effects.{Exec, pure, ◌>>=◌}
use olivechain.Effects.Ensures.{
  Ensures, bind-Ensures, drop-Ensures, done-Ensures, if-Ensures, reads-Ensures,
}
use olivechain.Json.{Value, Floats}
use olivechain.Result.{ok, ok-injective}
use olivechain.Portal.Identity.{PortalLibrary, normalize_username}
use olivechain.Portal.NewUser.{NewUser}
use olivechain.Portal.Rows.Accounts.{AreAccounts}
use olivechain.Portal.Store.{UsersFile, Store, missing, load_store, users, new_store}
use olivechain.Portal.Store.Written.{load_store-write_store, reloaded}
use olivechain.Portal.Users.{
  add_user, add_bootstrap_admin, set_user_status, set_password, set_or_add, legacy_user,
  delete_password,
}
use olivechain.Portal.Users.Accounts.{
  no_rows, reloaded-IsSound, IsSoundFile, load_store-Ensures, add_user-Ensures,
  set_user_password-Ensures, set_user_status-Ensures, delete_password-Ensures,
}

-- A call, with its time and the salt that it is given.
pub data Call : Type 0 where
  add : NewUser → Call
  bootstrap : String → String → String → String → Call
  change_password : List String → Call
  change_status : String → Bool → Call
  delete : String → String → Call

module _ (L : PortalLibrary) (F : Floats) where
  unfoldable pub perform : Call → ℕ → List ℕ → Exec UsersFile (Unit {0})
  unfolding add_bootstrap_admin
  perform (add u) now salt = add_user L F u now salt >>= λ shown. pure tt
  perform (bootstrap org_id username display_name password) now salt =
      add_bootstrap_admin L F org_id username display_name password now salt >>= λ shown. pure tt
  perform (change_password args) now salt = set_password L F args now salt
  perform (change_status username active) now salt =
      set_user_status L F username active now >>= λ shown. pure tt
  perform (delete org_id role) now salt = delete_password L F org_id role now >>= λ deleted. pure tt

  -- The file after the calls, whether they raise or not.
  unfoldable pub run : List (Call × ℕ × List ℕ) → UsersFile → UsersFile
  run [] s = s
  run ((call, now, salt) ∷ calls) s = run calls (perform call now salt s).1

  module _ (version : F.eq (F.of_int (pos 2)) (F.of_int (pos 2)) ≡ true) where
    users-Ensures : (now : ℕ) → Ensures (IsSoundFile L F) (users L F now) AreAccounts
    unfolding users
    users-Ensures now = bind-Ensures (load_store-Ensures L F version now) λ store sound. record {
      at = λ s p. (p, λ rows h. subst AreAccounts (ok-injective h) sound.1);
    }

    set_or_add-Ensures :
        (name org_id role password : String) (now : ℕ) (salt : List ℕ) (rows : Dict Value)
        → Ensures
            (IsSoundFile L F)
            (set_or_add L F name org_id role password now salt rows)
            (λ done. Unit {0})
    unfolding set_or_add
    set_or_add-Ensures name org_id role password now salt rows =
        if-Ensures (contains name rows)
          (λ h. set_user_password-Ensures L F version name password now salt)
          λ h.
            drop-Ensures
              (add_user-Ensures L F version (legacy_user L F name org_id role password) now salt)

    set_password-Ensures :
        (args : List String) (now : ℕ) (salt : List ℕ)
        → Ensures (IsSoundFile L F) (set_password L F args now salt) (λ done. Unit {0})
    unfolding set_password
    set_password-Ensures [] now salt = done-Ensures (reads-Ensures _)
    set_password-Ensures (a ∷ []) now salt = done-Ensures (reads-Ensures _)
    set_password-Ensures (username ∷ password ∷ []) now salt =
        set_user_password-Ensures L F version username password now salt
    set_password-Ensures (org_id ∷ role ∷ password ∷ []) now salt =
        bind-Ensures (reads-Ensures (normalize_username L role)) λ name named.
          bind-Ensures (users-Ensures now)
            λ rows sound. set_or_add-Ensures name org_id role password now salt rows
    set_password-Ensures (a ∷ b ∷ c ∷ d ∷ rest) now salt = done-Ensures (reads-Ensures _)

    perform-Ensures :
        (call : Call) (now : ℕ) (salt : List ℕ)
        → Ensures (IsSoundFile L F) (perform call now salt) (λ done. Unit {0})
    unfolding perform
    perform-Ensures (add u) now salt = drop-Ensures (add_user-Ensures L F version u now salt)
    perform-Ensures (bootstrap org_id username display_name password) now salt =
        drop-Ensures (add_user-Ensures L F version _ now salt)
    perform-Ensures (change_password args) now salt = set_password-Ensures args now salt
    perform-Ensures (change_status username active) now salt =
        drop-Ensures (set_user_status-Ensures L F version username active now)
    perform-Ensures (delete org_id role) now salt =
        drop-Ensures (delete_password-Ensures L F version org_id role now)

    run-IsSoundFile :
        (calls : List (Call × ℕ × List ℕ)) (s : UsersFile)
        → IsSoundFile L F s
        → IsSoundFile L F (run calls s)
    unfolding run
    run-IsSoundFile [] s p = p
    run-IsSoundFile ((call, now, salt) ∷ calls) s p =
        run-IsSoundFile calls (perform call now salt s).1 ((perform-Ensures call now salt).at s p).0

    sound-Loads :
        (later : ℕ) (s : UsersFile)
        → IsSoundFile L F s
        → (store : Store) × (load_store L F later s ≡ (ok store, s)) × AreAccounts store.users
    unfolding load_store
    sound-Loads later s (inl none_yet) = (
      new_store [],
      subst (λ s. load_store L F later s ≡ (ok (new_store []), s)) (sym none_yet) refl,
      no_rows,
    )
    sound-Loads later s (inr (st, sound, written)) = (
      reloaded st,
      subst (λ s. load_store L F later s ≡ (ok (reloaded st), s)) (sym written)
          (load_store-write_store L F later st sound.0),
      (reloaded-IsSound L F version st sound).1,
    )

    -- After any sequence of calls of add_user, add_bootstrap_admin, set_password, set_user_password,
    -- set_user_status and delete_password on a server that starts without a file of users, whether
    -- they raise or not, loading the users succeeds and leaves the file as it is, and each row
    -- stands under its own well-formed user name, in an organization and a role that
    -- validate_identity takes; provided that 2 equals itself as a float.
    pub accounts_after_any_run :
        (calls : List (Call × ℕ × List ℕ)) (later : ℕ)
        → (store : Store) × (load_store L F later (run calls missing)
            ≡ (ok store, run calls missing))
          × AreAccounts store.users
    accounts_after_any_run calls later =
        sound-Loads later (run calls missing) (run-IsSoundFile calls missing (inl refl))

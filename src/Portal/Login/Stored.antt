-- ===== src/Portal/Login/Stored.antt =====
-- A login against a row that has been written.
use olivechain.Base.{
  ℕ, String, Bool, true, false, not, ◌||◌, none, some, List, Dict, lookup, ◌≡◌, refl, ◌∙◌, ap,
  if◌then◌else◌,
}
use olivechain.Base.Int.{pos}
use olivechain.Effects.Bind.{bind-ran}
use olivechain.Json.{Value, Floats, null, boolean, int, str, dict_value}
use olivechain.Json.Access.{get_or, truthy, to_int}
use olivechain.Json.Sorted.{sorted, sorted_dict, lookup-sorted_dict, map_option}
use olivechain.Result.{Result, ok, err, raise_if, ◌>>◌}
use olivechain.Portal.Digest.{digests, judge, same_bytes}
use olivechain.Portal.Identity.{
  PortalLibrary, fail, normalize_username, password_digest, pbkdf2_iterations,
}
use olivechain.Portal.Rows.Stored.{
  stored, value_item-stored, row_get-stored, get_or-stored, copy_row-stored, truthy-stored,
}
use olivechain.Portal.Login.{authenticate_user, row_at, name_or_invalid}
use olivechain.Portal.Store.{Store, write_store, users, is_current}
use olivechain.Portal.Store.Written.{users-write_store}

-- The outcome of a login for a row, given whether the password is the user's and whether the row is active.
abbrev pub login_result : Bool → Bool → Dict Value → Result (Dict Value)
login_result same active d =
    if not same
    then err (fail "invalid username or password")
    else if active
    then ok d
    else err (fail "user is disabled")

gates :
    (same active : Bool) (d : Dict Value)
    → (raise_if (not true || not same) (fail "invalid username or password")
        >> (raise_if (not active) (fail "user is disabled") >> ok d))
      ≡ login_result same active d
gates true true d = refl
gates true false d = refl
gates false active d = refl

-- What a login finds to be the user's row.
pub row-found :
    (name : String) (d rows : Dict Value)
    → lookup name rows ≡ some (dict_value d)
    → row_at name (sorted_dict rows) ≡ stored d
row-found name d rows h =
    ap (λ o. elim o as (λ o. Value) [ none ↦ null | some row ↦ row ])
      (lookup-sorted_dict name rows ∙ ap map_option h)

module _ (L : PortalLibrary) (F : Floats) where
  -- The columns of a row that a password has been set in.
  pub record HoldsPassword (d : Dict Value) (password : String) (salt : List ℕ) : Type 0 where
    pub salted : lookup "salt" d ≡ some (str (L.b64encode salt))
    pub hashed : lookup "digest" d ≡ some (str (L.b64encode (password_digest L password salt)))
    pub rounds : lookup "iterations" d ≡ some (int (pos pbkdf2_iterations))

  pub name_or_invalid-ok :
      (username name : String)
      → normalize_username L username ≡ ok name
      → name_or_invalid L F username ≡ name
  name_or_invalid-ok username name h =
      ap (λ r. elim r as (λ r. String) [ ok name ↦ name | err e ↦ "invalid-user" ]) h

  module _ (decodes : (bytes : List ℕ) → L.b64decode (L.b64encode bytes) ≡ some bytes) where
    digests-stored :
        (d : Dict Value) (password attempt : String) (salt : List ℕ)
        → HoldsPassword d password salt
        → digests L F (stored d) attempt
          ≡ ok (password_digest L password salt, password_digest L attempt salt)
    unfolding digests to_int sorted password_digest
    digests-stored d password attempt salt h =
        rw
          (
            truthy-stored F "salt" d (str (L.b64encode salt)) h.salted,
            value_item-stored "salt" d (str (L.b64encode salt)) h.salted,
            value_item-stored "digest" d _ h.hashed,
            row_get-stored (int (pos pbkdf2_iterations)) "iterations" d,
            get_or-stored (int (pos pbkdf2_iterations)) "iterations" d _ h.rounds,
            decodes salt,
            decodes (password_digest L password salt),
          )
          refl

    judge-stored :
        (d : Dict Value) (password attempt : String) (salt : List ℕ)
        → HoldsPassword d password salt
        → judge L F (stored d) attempt
          ≡ login_result
              (same_bytes (password_digest L password salt) (password_digest L attempt salt))
              (truthy F (get_or (boolean true) "active" (sorted_dict d)))
              (sorted_dict d)
    unfolding judge
    judge-stored d password attempt salt h =
        rw
          (
            digests-stored d password attempt salt h,
            truthy-stored F "salt" d (str (L.b64encode salt)) h.salted,
            row_get-stored (boolean true) "active" d,
            copy_row-stored d,
          )
          (gates (same_bytes (password_digest L password salt) (password_digest L attempt salt))
            (truthy F (get_or (boolean true) "active" (sorted_dict d))) (sorted_dict d))

    pub authenticate_user-stored :
        (username name password attempt : String) (salt : List ℕ) (now : ℕ) (store : Store)
        (d : Dict Value)
        → is_current L F store.content ≡ true
        → normalize_username L username ≡ ok name
        → lookup name store.users ≡ some (dict_value d)
        → HoldsPassword d password salt
        → authenticate_user L F username attempt now (write_store store) ≡ (
          login_result
              (same_bytes (password_digest L password salt) (password_digest L attempt salt))
              (truthy F (get_or (boolean true) "active" (sorted_dict d)))
              (sorted_dict d),
          write_store store,
        )
    unfolding authenticate_user
    authenticate_user-stored username name password attempt salt now store d current named found h =
        bind-ran (users L F now)
          (λ rows s. (judge L F (row_at (name_or_invalid L F username) rows) attempt, s))
          (write_store store) (sorted_dict store.users) (write_store store)
          (users-write_store L F now store current)
        ∙ rw
            (
              name_or_invalid-ok username name named,
              row-found name d store.users found,
              judge-stored d password attempt salt h,
            )
            refl

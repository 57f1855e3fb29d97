-- ===== src/Portal/Store/Written.antt =====
-- What is loaded of a file of users that has been written.
use olivechain.Base.{
  ℕ, String, true, Option, none, some, [], Dict, lookup, insert, lookup-insert, ◌≡◌, refl, sym, ◌∙◌,
  ap, inl, inr, if◌then◌else◌,
}
use olivechain.Base.Int.{pos}
use olivechain.Base.Filter.{if-cases}
use olivechain.Effects.Bind.{bind-ran, reads-ok}
use olivechain.Json.{Value, Floats, null, boolean, int, float, str, arr, obj, dict_value, of_fields}
use olivechain.Json.Access.{get_or, same_key}
use olivechain.Json.Sorted.{
  sorted, sorted_dict, of_fields-to_fields, sorted-dict_value, lookup-sorted_dict, map_option,
}
use olivechain.Result.{Result, ok, ok-injective}
use olivechain.Portal.Identity.{PortalLibrary}
use olivechain.Portal.Store.Migration.{migrate_legacy}
use olivechain.Portal.Store.{
  UsersFile, Store, missing, unreadable, json, write_store, is_current, with_users, load_store,
  users, new_store, migrate_store,
}

-- The dict that is written, and the store that is loaded of it.
abbrev pub to_write : Store → Dict Value
to_write store = insert "users" (dict_value store.users) store.content

abbrev pub reloaded : Store → Store
reloaded store = record { content = sorted_dict (to_write store); users = sorted_dict store.users }

get_or-map_option :
    (o : Option Value)
    → (elim (map_option o) as (λ x. Value) [ none ↦ null | some v ↦ v ])
      ≡ sorted (elim o [ none ↦ null | some v ↦ v ])
unfolding sorted
get_or-map_option none = refl
get_or-map_option (some v) = refl

get_or-sorted_dict :
    (k : String) (d : Dict Value) → get_or null k (sorted_dict d) ≡ sorted (get_or null k d)
get_or-sorted_dict k d =
    ap (λ o. elim o [ none ↦ null | some v ↦ v ]) (lookup-sorted_dict k d)
    ∙ get_or-map_option (lookup k d)

module _ (L : PortalLibrary) (F : Floats) where
  same_key-sorted : (v : Value) → same_key F (sorted v) (int (pos 2)) ≡ same_key F v (int (pos 2))
  unfolding same_key sorted
  same_key-sorted null = refl
  same_key-sorted (boolean b) = refl
  same_key-sorted (int n) = refl
  same_key-sorted (float x) = refl
  same_key-sorted (str s) = refl
  same_key-sorted (obj fs) = refl
  same_key-sorted (arr vs) = refl

  pub is_current-written :
      (store : Store) → is_current L F (sorted_dict (to_write store)) ≡ is_current L F store.content
  is_current-written store =
      ap (λ v. same_key F v (int (pos 2))) (get_or-sorted_dict "schema_version" (to_write store))
      ∙ same_key-sorted (get_or null "schema_version" (to_write store))
      ∙ ap (λ o. same_key F (elim o [ none ↦ null | some v ↦ v ]) (int (pos 2)))
          (lookup-insert "users" "schema_version" (dict_value store.users) store.content)

  users-written :
      (store : Store)
      → get_or null "users" (sorted_dict (to_write store)) ≡ dict_value (sorted_dict store.users)
  users-written store =
      get_or-sorted_dict "users" (to_write store)
      ∙ ap (λ o. sorted (elim o [ none ↦ null | some v ↦ v ]))
          (lookup-insert "users" "users" (dict_value store.users) store.content)
      ∙ sorted-dict_value store.users

  with_users-written :
      (store : Store)
      → with_users
          (sorted_dict (to_write store))
          (get_or null "users" (sorted_dict (to_write store)))
        ≡ ok (reloaded store)
  unfolding with_users
  with_users-written store =
      ap (with_users (sorted_dict (to_write store))) (users-written store)
      ∙ ap (λ d. ok (record { content = sorted_dict (to_write store); users = d }))
          (of_fields-to_fields (sorted_dict store.users))

  write_store-json :
      (store : Store) → write_store store ≡ json (dict_value (sorted_dict (to_write store)))
  unfolding write_store
  write_store-json store = ap json (sorted-dict_value (to_write store))

  -- A file that has been written is loaded as it was, with keys in order, and stays as it is.
  pub load_store-write_store :
      (now : ℕ) (store : Store)
      → is_current L F store.content ≡ true
      → load_store L F now (write_store store) ≡ (ok (reloaded store), write_store store)
  unfolding load_store
  load_store-write_store now store h =
      let written = dict_value (sorted_dict (to_write store)) in
      let loaded : Dict Value → Result Store × UsersFile = λ d.
        if is_current L F d
        then (with_users d (get_or null "users" d), json written)
        else migrate_store L F now d (json written) in
      ap (load_store L F now) (write_store-json store)
      ∙ ap loaded (of_fields-to_fields (sorted_dict (to_write store)))
      ∙ ap
          (λ b.
            if b
            then (
              with_users (sorted_dict (to_write store))
                  (get_or null "users" (sorted_dict (to_write store))),
              json written,
            )
            else migrate_store L F now (sorted_dict (to_write store)) (json written))
          (is_current-written store ∙ h)
      ∙ ap (λ r. (r, json written)) (with_users-written store)
      ∙ ap (λ f. (ok (reloaded store), f)) (sym (write_store-json store))

  pub users-write_store :
      (now : ℕ) (store : Store)
      → is_current L F store.content ≡ true
      → users L F now (write_store store) ≡ (ok (sorted_dict store.users), write_store store)
  unfolding users
  users-write_store now store h =
      bind-ran (load_store L F now) (λ store s. (ok store.users, s)) (write_store store)
        (reloaded store) (write_store store) (load_store-write_store now store h)

  with_users-content :
      (content : Dict Value) (v : Value) (store : Store)
      → with_users content v ≡ ok store
      → store.content ≡ content
  unfolding with_users
  with_users-content content (obj fs) store h = sym (ap (λ s. s.content) (ok-injective h))
  with_users-content content v store h = cc

  module _ (version : F.eq (F.of_int (pos 2)) (F.of_int (pos 2)) ≡ true) where
    pub is_current-new : (rows : Dict Value) → is_current L F (new_store rows).content ≡ true
    unfolding lookup same_key
    is_current-new rows = version

    load_fields-IsCurrent :
        (now : ℕ) (d : Dict Value) (s s' : UsersFile) (store : Store)
        → (if is_current L F d
            then (with_users d (get_or null "users" d), s)
            else migrate_store L F now d s)
          ≡ (ok store, s')
        → is_current L F store.content ≡ true
    load_fields-IsCurrent now d s s' store h = elim (if-cases (is_current L F d) _ _ _ h) [
      | inl (current, loaded) ↦
          ap (is_current L F)
            (with_users-content d (get_or null "users" d) store (ap (λ r. r.0) loaded))
          ∙ current
      | inr (old, migrated) ↦
          let (rows, _, h') =
            reads-ok (λ s. migrate_legacy L F now d)
              (λ rows s. (ok (new_store rows), write_store (new_store rows))) s store s' migrated in
          ap (is_current L F) (sym (ap (λ s. s.content) (ok-injective (ap (λ r. r.0) h'))))
          ∙ is_current-new rows
    ]

    -- Whatever is loaded is of the current version.
    pub load_store-IsCurrent :
        (now : ℕ) (s s' : UsersFile) (store : Store)
        → load_store L F now s ≡ (ok store, s')
        → is_current L F store.content ≡ true
    unfolding load_store
    load_store-IsCurrent now missing s' store h =
        ap (is_current L F) (sym (ap (λ s. s.content) (ok-injective (ap (λ r. r.0) h))))
        ∙ is_current-new []
    load_store-IsCurrent now (unreadable text) s' store h = cc
    load_store-IsCurrent now (json (obj fs)) s' store h =
        load_fields-IsCurrent now (of_fields fs) (json (obj fs)) s' store h
    load_store-IsCurrent now (json null) s' store h = cc
    load_store-IsCurrent now (json (boolean b)) s' store h = cc
    load_store-IsCurrent now (json (int n)) s' store h = cc
    load_store-IsCurrent now (json (float x)) s' store h = cc
    load_store-IsCurrent now (json (str t)) s' store h = cc
    load_store-IsCurrent now (json (arr vs)) s' store h = cc

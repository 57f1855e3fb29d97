-- ===== src/Portal/Store/Migration.antt =====
-- `_migrate_legacy` of portal_auth.py: the users that a file of the version before stands for.
use Prim.Native.Char.{code}
use olivechain.Base.{ℕ, String, true, none, some, [], ◌∷◌, Dict, lookup, insert, eqb, if◌then◌else◌}
use olivechain.Base.Int.{pos}
use olivechain.Json.{Value, Floats, null, boolean, int, str, obj, dict_value, of_fields}
use olivechain.Json.Access.{item, get_or, truthy, to_int}
use olivechain.Result.{Result, ok, fold_result, ◌>>=◌}
use olivechain.Portal.Identity.{
  PortalLibrary, PortalIdentity, portal_identities, pbkdf2_iterations, is_member,
  normalize_username,
}

-- `text.partition(":")`: what is before the first colon, and what is behind it.
before_colon : String → String
before_colon String.[] = ""
before_colon (String.◌∷◌ c s) = if eqb (code c) 58 then "" else String.◌∷◌ c (before_colon s)

after_colon : String → String
after_colon String.[] = ""
after_colon (String.◌∷◌ c s) = if eqb (code c) 58 then s else after_colon s

module _ (L : PortalLibrary) (F : Floats) where
  -- `str(row.get(key) or default)`
  abbrev text_or : String → Dict Value → String → String
  text_or key row default =
      let v = get_or null key row in if truthy F v then F.to_text v else default

  migrated : ℕ → String → String → PortalIdentity → Dict Value → Dict Value → Result (Dict Value)
  migrated now org_id role spec row users = do
    username ← normalize_username L role
    salt ← item "salt" row
    digest ← item "digest" row
    iterations ← to_int F (get_or (int (pos pbkdf2_iterations)) "iterations" row)
    created_at ← to_int F (get_or (int (pos now)) "updated_at" row)
    ok (
        insert username
          (dict_value (
            ("username", str username)
            ∷ ("display_name", str (L.title role))
            ∷ ("org_id", str org_id)
            ∷ ("org_name", str spec.name)
            ∷ ("msp_id", str spec.msp_id)
            ∷ ("role", str role)
            ∷ ("identity_alias", str role)
            ∷ ("client_id_hash", str "")
            ∷ ("active", boolean true)
            ∷ ("salt", salt)
            ∷ ("digest", digest)
            ∷ ("iterations", int iterations)
            ∷ ("created_at", int created_at)
            ∷ ("updated_at", int (pos now))
            ∷ ("created_by", str "automatic-0.4-migration")
            ∷ []))
          users)

  unfoldable pub migrate_row : ℕ → Dict Value → String × Value → Result (Dict Value)
  unfolding migrated before_colon after_colon
  migrate_row now users (old_key, obj fs) =
      let row = of_fields fs in
      let org_id = text_or "org_id" row (before_colon old_key) in
      let role = text_or "role" row (after_colon old_key) in
      elim (lookup org_id portal_identities) [
        | none ↦ ok users
        | some spec ↦
            if is_member role spec.roles then migrated now org_id role spec row users else ok users
      ]
  migrate_row now users (old_key, _) = ok users

  unfoldable pub migrate_legacy : ℕ → Dict Value → Result (Dict Value)
  unfolding migrate_row
  migrate_legacy now = fold_result (migrate_row now) []

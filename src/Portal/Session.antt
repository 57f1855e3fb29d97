-- ===== src/Portal/Session.antt =====
-- What a session of portal_auth.py holds of a user.
use olivechain.Base.{String, true, [], ◌∷◌, Dict, lookup, if◌then◌else◌}
use olivechain.Base.Int.{ℤ}
use olivechain.Json.{Value, Floats, null, boolean, int, str, arr, obj}
use olivechain.Json.Access.{item, get_or, truthy}
use olivechain.Result.{Result, ok, err, key_error, type_error, or_raise, ◌>>=◌}
use olivechain.Portal.Identity.{PortalIdentity, portal_identities}

pub record PortalSession : Type 0 where
  pub username : Value
  pub display_name : Value
  pub org_id : Value
  pub org_name : Value
  pub msp_id : Value
  pub role : Value
  pub identity_alias : Value
  pub client_id_hash : Value
  pub issued_at : ℤ
  pub expires_at : ℤ
  pub csrf_token : String

unfoldable pub public_dict : PortalSession → Dict Value
public_dict s =
    ("authenticated", boolean true)
    ∷ ("username", s.username)
    ∷ ("display_name", s.display_name)
    ∷ ("org_id", s.org_id)
    ∷ ("org_name", s.org_name)
    ∷ ("msp_id", s.msp_id)
    ∷ ("role", s.role)
    ∷ ("identity_alias", s.identity_alias)
    ∷ ("client_id_hash", s.client_id_hash)
    ∷ ("issued_at", int s.issued_at)
    ∷ ("expires_at", int s.expires_at)
    ∷ ("csrf_token", str s.csrf_token)
    ∷ []

-- `PORTAL_IDENTITIES[org_id]`
spec_of : Value → Result PortalIdentity
spec_of (str s) = or_raise (lookup s portal_identities) (key_error "{}" (s ∷ []))
spec_of (arr vs) = err (type_error "unhashable type: 'list'" [])
spec_of (obj fs) = err (type_error "unhashable type: 'dict'" [])
spec_of _ = err (key_error "no organization" [])

module _ (F : Floats) where
  -- `user.get(key) or PORTAL_IDENTITIES[user["org_id"]][...]`
  pub or_of_org : String → (PortalIdentity → String) → Dict Value → Result Value
  unfolding spec_of
  or_of_org key of_spec user =
      if truthy F (get_or null key user)
      then ok (get_or null key user)
      else (do org_id ← item "org_id" user; spec ← spec_of org_id; ok (str (of_spec spec)))

  unfoldable pub session_of : Dict Value → ℤ → ℤ → String → Result PortalSession
  unfolding or_of_org
  session_of user issued_at expires_at csrf_token = do
    username ← item "username" user
    display_name ← item "display_name" user
    org_id ← item "org_id" user
    org_name ← or_of_org "org_name" (λ spec. spec.name) user
    msp_id ← or_of_org "msp_id" (λ spec. spec.msp_id) user
    role ← item "role" user
    identity_alias ← item "identity_alias" user
    ok (record {
      username = username;
      display_name = display_name;
      org_id = org_id;
      org_name = org_name;
      msp_id = msp_id;
      role = role;
      identity_alias = identity_alias;
      client_id_hash = get_or (str "") "client_id_hash" user;
      issued_at = issued_at;
      expires_at = expires_at;
      csrf_token = csrf_token;
    })

-- ===== src/Portal/NewUser.antt =====
-- The columns of a new user in portal_auth.py, and what is checked before the file is looked at.
use olivechain.Base.{ℕ, String, true, ◌||◌, List, [], ◌∷◌, Dict, ◌==◌, length, ltb, if◌then◌else◌}
use olivechain.Base.Int.{pos}
use olivechain.Json.{Value, boolean, int, str}
use olivechain.Json.Dump.{codes}
use olivechain.Result.{Result, ok, raise_if, ◌>>=◌, ◌>>◌}
use olivechain.Portal.Identity.{
  PortalLibrary, PortalIdentity, fail, validate_identity, validate_password, normalize_username,
  password_digest, pbkdf2_iterations,
}
pub mod Bounds

-- The arguments of `add_user`.
pub record NewUser : Type 0 where
  pub username : String
  pub display_name : String
  pub org_id : String
  pub role : String
  pub password : String
  pub identity_alias : String
  pub client_id_hash : String
  pub created_by : String

-- What the columns of a password are set to.
abbrev pub password_columns : PortalLibrary → String → List ℕ → Dict Value
password_columns L password salt =
    ("salt", str (L.b64encode salt))
    ∷ ("digest", str (L.b64encode (password_digest L password salt)))
    ∷ ("iterations", int (pos pbkdf2_iterations))
    ∷ []

unfoldable pub user_columns :
    PortalLibrary → String → String → PortalIdentity → ℕ → List ℕ → NewUser → Dict Value
user_columns L username display_name spec now salt u =
    ("username", str username)
    ∷ ("display_name", str display_name)
    ∷ ("org_id", str u.org_id)
    ∷ ("org_name", str spec.name)
    ∷ ("msp_id", str spec.msp_id)
    ∷ ("role", str u.role)
    ∷ ("identity_alias", str u.identity_alias)
    ∷ ("client_id_hash", str u.client_id_hash)
    ∷ ("active", boolean true)
    ∷ ("salt", str (L.b64encode salt))
    ∷ ("digest", str (L.b64encode (password_digest L u.password salt)))
    ∷ ("iterations", int (pos pbkdf2_iterations))
    ∷ ("created_at", int (pos now))
    ∷ ("updated_at", int (pos now))
    ∷ ("created_by", str u.created_by)
    ∷ []

-- The name, the organization and the name to show.
unfoldable pub admit : PortalLibrary → NewUser → Result (String × PortalIdentity × String)
admit L u = do
  username ← normalize_username L u.username
  spec ← validate_identity u.org_id u.role
  validate_password u.password
  let display_name = L.strip u.display_name
  raise_if (display_name == "" || ltb 120 (length (codes display_name)))
      (fail "display_name is required (max 120 characters)")
  raise_if (u.identity_alias == "" || ltb 160 (length (codes u.identity_alias)))
      (fail "identity_alias is required")
  ok (username, spec, display_name)

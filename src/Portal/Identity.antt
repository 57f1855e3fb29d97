-- ===== src/Portal/Identity.antt =====
-- Organizations, user names and passwords in portal_auth.py, and what the module takes from its
-- libraries.
use olivechain.Base.{
  ℕ, String, Bool, false, not, ◌&&◌, ◌||◌, Option, List, [], ◌∷◌, Dict, lookup, ◌==◌, any, all,
  length, leb, ltb, eqb, if◌then◌else◌,
}
use olivechain.Base.Int.{ℤ, pos}
use olivechain.Json.{Value}
use olivechain.Json.Dump.{codes, encode}
use olivechain.Result.{
  Exception, Result, ok, err, portal_auth_error, or_raise, raise_if, ◌>>=◌, ◌>>◌,
}

-- What the interpreter supplies, under the secret of the server.
pub record PortalLibrary : Type 0 where
  -- `text.strip()`, `text.lower()` and `text.replace("_", " ").title()`
  pub strip : String → String
  pub lower : String → String
  pub title : String → String
  -- `pbkdf2_hmac("sha256", password, salt, iterations)`, where there is an iteration
  pub pbkdf2 : List ℕ → List ℕ → ℤ → List ℕ
  pub b64encode : List ℕ → String
  pub b64decode : String → Option (List ℕ)
  -- `_b64url` of bytes, and of the HMAC of an ASCII text
  pub b64url : List ℕ → String
  pub seal : String → String
  -- `json.loads(self._unb64url(text).decode("utf-8"))`
  pub load_payload : String → Option Value

abbrev pub fail : String → Exception
fail text = portal_auth_error text []

abbrev pub pbkdf2_iterations : ℕ
pbkdf2_iterations = 310000

pub record PortalIdentity : Type 0 where
  pub name : String
  pub msp_id : String
  pub machine : String
  pub roles : List String

unfoldable pub portal_identities : Dict PortalIdentity
portal_identities =
    (
      "farmer-org",
      record {
        name = "Farmer Cooperative";
        msp_id = "FarmerOrgMSP";
        machine = "machine1";
        roles = "farmer" ∷ [];
      },
    )
    ∷ (
      "maker-org",
      record {
        name = "Olive Mill";
        msp_id = "MakerOrgMSP";
        machine = "machine2";
        roles = "mill" ∷ "laboratory" ∷ "bottler" ∷ [];
      },
    )
    ∷ (
      "courier-org",
      record {
        name = "Green Logistics";
        msp_id = "CourierOrgMSP";
        machine = "machine3";
        roles = "collector" ∷ "distributor" ∷ "retailer" ∷ [];
      },
    )
    ∷ (
      "recycler-org",
      record {
        name = "BioEnergy Recovery";
        msp_id = "RecyclerOrgMSP";
        machine = "machine4";
        roles = "processor" ∷ [];
      },
    )
    ∷ []

abbrev pub is_member : String → List String → Bool
is_member s = any (λ t. t == s)

unfoldable pub validate_identity : String → String → Result PortalIdentity
unfolding portal_identities
validate_identity org_id role = do
  spec ← or_raise (lookup org_id portal_identities) (fail "unknown organization or role")
  raise_if (not (is_member role spec.roles || role == "orgadmin"))
      (fail "unknown organization or role")
  ok spec

-- `[a-z0-9]` and `[a-z0-9_-]`
abbrev is_alphanumeric : ℕ → Bool
is_alphanumeric c = leb 97 c && leb c 122 || leb 48 c && leb c 57

abbrev is_name_code : ℕ → Bool
is_name_code c = is_alphanumeric c || eqb c 95 || eqb c 45

is_name : List ℕ → Bool
is_name [] = false
is_name (c ∷ cs) =
    is_alphanumeric c && all is_name_code cs && leb 2 (length cs) && leb (length cs) 63

-- `_USERNAME_RE.fullmatch(value)`
unfoldable pub is_username : String → Bool
unfolding is_name
is_username value = is_name (codes value)

unfoldable pub validate_password : String → Result (Unit {0})
validate_password password = do
  raise_if (ltb (length (codes password)) 10) (fail "password must contain at least 10 characters")
  raise_if (ltb 256 (length (codes password))) (fail "password is too long")

module _ (L : PortalLibrary) where
  unfoldable pub normalize_username : String → Result String
  normalize_username username =
      let value = L.lower (L.strip username) in
      if is_username value
      then ok value
      else err (fail "username must be 3-64 lowercase letters, digits, hyphens or underscores")

  -- The digest beside the salt that `token_bytes` has given.
  unfoldable pub password_digest : String → List ℕ → List ℕ
  password_digest password salt = L.pbkdf2 (encode password) salt (pos pbkdf2_iterations)

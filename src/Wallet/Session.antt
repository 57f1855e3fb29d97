-- ===== src/Wallet/Session.antt =====
-- The signed sessions of wallet_auth.py.
use olivechain.Base.{
  ℕ, ◌+◌, String, ◌<>◌, List, Bool, true, false, not, ◌&&◌, Option, none, some, [], ◌∷◌, Dict,
  lookup, ◌==◌, all, length, ltb, if◌then◌else◌, ◌||◌,
}
use olivechain.Base.Int.{ℤ, pos, leb_ℤ, ltb_ℤ}
use olivechain.Crypto.{Crypto}
use olivechain.Json.{Value, Floats, int, str, null, boolean, dict_value}
use olivechain.Json.Access.{item, get_or, truthy, to_int, is_text, same_key}
use olivechain.Json.Dump.{codes, canonical_json}
use olivechain.Result.{Result, ok, err, value_error, type_error, raise_if, ◌>>=◌, ◌>>◌}
use olivechain.Wallet.Address.{WalletLibrary, fail, validate_address}

pub record WalletSession : Type 0 where
  pub wallet_address : String
  pub username : String
  pub display_name : String
  pub org_id : String
  pub org_name : String
  pub msp_id : String
  pub role : String
  pub role_status : String
  pub identity_alias : String
  pub client_id_hash : String
  pub issued_at : ℤ
  pub expires_at : ℤ
  pub csrf_token : String

-- `session.operational`
unfoldable pub operational : WalletSession → Bool
operational s = s.role_status == "active" && (not (s.org_id == "") && not (s.identity_alias == ""))

unfoldable pub public_dict : WalletSession → Dict Value
unfolding operational
public_dict s =
    ("authenticated", boolean true)
    ∷ ("wallet_address", str s.wallet_address)
    ∷ ("username", str s.username)
    ∷ ("display_name", str s.display_name)
    ∷ ("org_id", str s.org_id)
    ∷ ("org_name", str s.org_name)
    ∷ ("msp_id", str s.msp_id)
    ∷ ("role", str s.role)
    ∷ ("role_status", str s.role_status)
    ∷ ("identity_alias", str s.identity_alias)
    ∷ ("client_id_hash", str s.client_id_hash)
    ∷ ("operational", boolean (operational s))
    ∷ ("issued_at", int s.issued_at)
    ∷ ("expires_at", int s.expires_at)
    ∷ ("csrf_token", str s.csrf_token)
    ∷ []

-- ORG_NAMES
org_names : Dict String
org_names =
    ("farmer-org", "Farmer Cooperative")
    ∷ ("maker-org", "Olive Mill")
    ∷ ("courier-org", "Green Logistics")
    ∷ ("recycler-org", "BioEnergy Recovery")
    ∷ []

-- What the module takes of its libraries for sessions.
pub record SessionLibrary : Type 0 where
  -- `_b64url`
  pub b64url : List ℕ → String
  -- `_b64url` of the HMAC of an ASCII text under the server's secret
  pub seal : String → String
  -- `token.split(".", 1)`, where the token holds a dot
  pub split_dot : String → Option (String × String)
  -- the JSON object that the text is the base64url form of
  pub decode_payload : String → Option (Dict Value)

-- `text.isascii()`
abbrev pub is_ascii : String → Bool
is_ascii s = all (λ c. ltb c 128) (codes s)

unfoldable pub validate_csrf : WalletSession → Option String → Result Bool
validate_csrf session none = ok false
validate_csrf session (some supplied) =
    if supplied == ""
    then ok false
    else if is_ascii session.csrf_token && is_ascii supplied
    then ok (session.csrf_token == supplied)
    else err (type_error "comparing strings with non-ASCII characters is not supported" [])

module _ (W : WalletLibrary) (F : Floats) (C : Crypto) where
  -- `str(wallet.get(key) or default)`
  abbrev pub text_at : String → String → Dict Value → String
  text_at key default wallet =
      let v = get_or null key wallet in if truthy F v then F.to_text v else default

  unfoldable pub session_from_wallet : Dict Value → ℤ → ℤ → String → Result WalletSession
  unfolding org_names
  session_from_wallet wallet issued_at expires_at csrf_token = do
    let role_status = text_at "role_status" "consumer" wallet
    let active = role_status == "active"
    let org_id = if active then text_at "org_id" "" wallet else ""
    v ← item "wallet_address" wallet
    address ← validate_address W C (F.to_text v)
    ok (record {
      wallet_address = address;
      username = address;
      display_name = text_at "display_name" address wallet;
      org_id = org_id;
      org_name = elim (lookup org_id org_names) [ none ↦ "Consumer / Unassigned" | some n ↦ n ];
      msp_id = if active then text_at "msp_id" "" wallet else "";
      role = if active then text_at "role" "consumer" wallet else "consumer";
      role_status = role_status;
      identity_alias = if active then text_at "identity_alias" "" wallet else "";
      client_id_hash = if active then text_at "client_id_hash" "" wallet else "";
      issued_at = issued_at;
      expires_at = expires_at;
      csrf_token = csrf_token;
    })

  abbrev pub is_nonempty : Option (Dict Value) → Bool
  is_nonempty none = false
  is_nonempty (some []) = false
  is_nonempty (some (e ∷ d)) = true

  abbrev pub the_wallet : Option (Dict Value) → Dict Value
  the_wallet none = []
  the_wallet (some d) = d

  -- The body of the `try`, where a `return None` is an exception too: both end in None.
  unfoldable pub open_payload :
      Dict Value → (String → Result (Option (Dict Value))) → ℕ → Result WalletSession
  open_payload payload wallet_lookup now = do
    raise_if (not (same_key F (get_or null "v" payload) (int (pos 3)))) (fail "None")
    iat ← item "iat" payload
    issued ← to_int F iat
    exp ← item "exp" payload
    expires ← to_int F exp
    raise_if (ltb_ℤ (pos (now + 60)) issued || leb_ℤ expires (pos now)) (fail "None")
    named ← item "wallet" payload
    address ← validate_address W C (F.to_text named)
    found ← wallet_lookup address
    raise_if (not (is_nonempty found && is_text "active" (get_or null "status" (the_wallet found))))
        (fail "None")
    csrf ← item "csrf" payload
    raise_if (ltb (length (codes (F.to_text csrf))) 20) (fail "None")
    session_from_wallet (the_wallet found) issued expires (F.to_text csrf)

  abbrev pub or_none : Result WalletSession → Option WalletSession
  or_none (ok s) = some s
  or_none (err e) = none

  -- The function on the two parts of the token. Encoding and comparing raise on a text that is not
  -- ASCII.
  unfoldable pub check_token :
      SessionLibrary
      → String × String
      → (String → Result (Option (Dict Value)))
      → ℕ
      → Result (Option WalletSession)
  unfolding open_payload
  check_token L (encoded, supplied) wallet_lookup now = do
    raise_if (not (is_ascii encoded)) (value_error "ordinal not in range(128)" [])
    raise_if (not (is_ascii supplied)) (type_error "comparing strings with non-ASCII characters" [])
    (if not (L.seal encoded == supplied)
        then ok none
        else ok (elim (L.decode_payload encoded) [
          | none ↦ none
          | some payload ↦ or_none (open_payload payload wallet_lookup now)
        ]))

  unfoldable pub parse_session :
      SessionLibrary
      → Option String
      → (String → Result (Option (Dict Value)))
      → ℕ
      → Result (Option WalletSession)
  unfolding check_token
  parse_session L none wallet_lookup now = ok none
  parse_session L (some token) wallet_lookup now = elim (L.split_dot token) [
    | none ↦ ok none
    | some parts ↦ check_token L parts wallet_lookup now
  ]

  abbrev pub session_payload : String → ℕ → ℕ → String → String → Dict Value
  session_payload address issued_at expires_at csrf_token nonce =
      ("v", int (pos 3))
      ∷ ("wallet", str address)
      ∷ ("iat", int (pos issued_at))
      ∷ ("exp", int (pos expires_at))
      ∷ ("csrf", str csrf_token)
      ∷ ("nonce", str nonce)
      ∷ []

  -- With `session_ttl_seconds`, at the time `now`, and with what token_urlsafe returns.
  unfoldable pub create_session :
      SessionLibrary → ℕ → Dict Value → ℕ → String → String → Result (String × WalletSession)
  unfolding session_from_wallet
  create_session L ttl wallet now csrf_token nonce = do
    session ← session_from_wallet wallet (pos now) (pos (now + ttl)) csrf_token
    let payload = session_payload session.wallet_address now (now + ttl) csrf_token nonce
    let encoded = L.b64url (canonical_json F (dict_value payload))
    ok (encoded <> "." <> L.seal encoded, session)

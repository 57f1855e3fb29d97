-- ===== src/Portal/Token.antt =====
-- The tokens of portal_auth.py: making a session for a user, and reading it back. The time, and
-- what `token_urlsafe` gives, are arguments.
pub mod Authentic
pub mod Round
use Prim.Native.Char.{code}
use olivechain.Base.{
  ℕ, ◌+◌, String, ◌<>◌, Bool, true, false, not, ◌&&◌, ◌||◌, Option, none, some, List, [], ◌∷◌, Dict,
  ◌==◌, all, length, ltb, eqb, if◌then◌else◌,
}
use olivechain.Base.Texts.{split_at}
use olivechain.Base.Int.{ℤ, pos, leb_ℤ, ltb_ℤ}
use olivechain.Effects.{Exec, pure, reads, raise_if, map_outcome, ◌>>=◌, ◌>>◌}
use olivechain.Json.{Value, Floats, null, int, str, dict_value}
use olivechain.Json.Access.{value_item, to_int, same_key}
use olivechain.Json.Dump.{codes, canonical_json}
use olivechain.Result.{
  Result, ok, err, key_error, type_error, value_error, portal_auth_error, attribute_error,
}
use olivechain.Portal.Identity.{PortalLibrary, fail}
use olivechain.Portal.Payload.{payload, read_claims, open_for}
use olivechain.Portal.Rows.{copy_row, row_get, is_active_in}
use olivechain.Portal.Session.{PortalSession, session_of}
use olivechain.Portal.Store.{UsersFile, users}
use olivechain.Portal.Users.{get_user}

abbrev pub is_ascii : String → Bool
is_ascii s = all (λ c. ltb c 128) (codes s)

-- For whom a session is made: a user's row, an active user of an organization in a role, or the
-- user of a name.
pub data SessionFor : Type 0 where
  of_row : Dict Value → SessionFor
  of_role : String → String → SessionFor
  of_name : String → SessionFor

-- `hmac.compare_digest` of texts, the first of which is ASCII
unfoldable pub compare_digest : String → String → Result Bool
compare_digest expected supplied =
    if is_ascii supplied
    then ok (expected == supplied)
    else err (type_error "comparing strings with non-ASCII characters is not supported" [])

unfoldable pub validate_csrf : PortalSession → Option String → Result Bool
unfolding compare_digest
validate_csrf session none = ok false
validate_csrf session (some supplied) =
    if supplied == ""
    then ok false
    else if is_ascii session.csrf_token
    then compare_digest session.csrf_token supplied
    else err (type_error "comparing strings with non-ASCII characters is not supported" [])

-- What `parse_session` catches.
unfoldable pub or_none : Result PortalSession → Result (Option PortalSession)
or_none (ok session) = ok (some session)
or_none (err (key_error t texts)) = ok none
or_none (err (type_error t texts)) = ok none
or_none (err (value_error t texts)) = ok none
or_none (err (portal_auth_error t texts)) = ok none
or_none (err e) = err e

-- The first candidate; the test is made of every row.
candidates : Floats → String → String → Dict Value → Result (List Value)
candidates F org_id role [] = ok []
candidates F org_id role ((username, row) ∷ rows) = elim (is_active_in F org_id role row) [
  | err e ↦ err e
  | ok active ↦ elim (candidates F org_id role rows) [
    | err e ↦ err e
    | ok rest ↦ ok (if active then row ∷ rest else rest)
  ]
]

first_candidate : List Value → Result (Dict Value)
unfolding copy_row
first_candidate [] = err (fail "no active user configured for organization and role")
first_candidate (row ∷ rest) = copy_row row

module _ (L : PortalLibrary) (F : Floats) where
  session_user : SessionFor → ℕ → Exec UsersFile (Dict Value)
  unfolding users get_user candidates first_candidate
  session_user (of_row user) now = pure user
  session_user (of_role org_id role) now = do
    rows ← users L F now
    found ← reads (λ s. candidates F org_id role rows)
    reads (λ s. first_candidate found)
  session_user (of_name username) now = get_user L F username true now

  abbrev pub encoded_payload : Dict Value → String
  encoded_payload d = L.b64url (canonical_json F (dict_value d))

  -- With `session_ttl_seconds`.
  unfoldable pub create_session :
      ℕ → SessionFor → ℕ → String → String → Exec UsersFile (String × PortalSession)
  unfolding session_user
  create_session ttl who now csrf_token nonce = do
    user ← session_user who now
    session ← reads (λ s. session_of F user (pos now) (pos (now + ttl)) csrf_token)
    let encoded = encoded_payload (payload session.username now (now + ttl) csrf_token nonce)
    pure (encoded <> "." <> L.seal encoded, session)

  -- The body of the `try` after `json.loads`.
  unfoldable pub open_payload : Value → ℕ → Exec UsersFile PortalSession
  open_payload payload now = do
    claims ← reads (λ s. read_claims F now payload)
    user ← get_user L F claims.2 true now
    reads (λ s. open_for F payload claims user)

  -- `json.loads`, which raises a ValueError, and the rest of the `try`.
  abbrev pub open_loaded : Option Value → ℕ → Exec UsersFile (Option PortalSession)
  open_loaded none now = pure none
  open_loaded (some payload) now = map_outcome or_none (open_payload payload now)

  -- Encoding and comparing raise on a text that is not ASCII.
  unfoldable pub check_token : String × String → ℕ → Exec UsersFile (Option PortalSession)
  unfolding compare_digest open_payload or_none
  check_token (encoded, supplied) now = do
    raise_if (not (is_ascii encoded)) (value_error "ordinal not in range(128)" [])
    same ← reads (λ s. compare_digest (L.seal encoded) supplied)
    (if same then open_loaded (L.load_payload encoded) now else pure none)

  abbrev pub parse_parts : Option (String × String) → ℕ → Exec UsersFile (Option PortalSession)
  parse_parts none now = pure none
  parse_parts (some parts) now = check_token parts now

  unfoldable pub parse_session : Option String → ℕ → Exec UsersFile (Option PortalSession)
  unfolding check_token split_at
  parse_session none now = pure none
  parse_session (some token) now = parse_parts (split_at 46 token) now

-- ===== src/Portal/Payload.antt =====
-- The payload of a token of portal_auth.py, as it is made and as `parse_session` reads it.
use olivechain.Base.{ℕ, ◌+◌, String, not, ◌||◌, [], ◌∷◌, Dict, length, ltb}
use olivechain.Base.Int.{ℤ, pos, leb_ℤ, ltb_ℤ}
use olivechain.Json.{Value, Floats, null, int, str}
use olivechain.Json.Access.{value_item, to_int, same_key}
use olivechain.Json.Dump.{codes}
use olivechain.Result.{Result, ok, raise_if, ◌>>=◌, ◌>>◌}
use olivechain.Portal.Identity.{fail}
use olivechain.Portal.Rows.{row_get}
use olivechain.Portal.Session.{PortalSession, session_of}

unfoldable pub payload : Value → ℕ → ℕ → String → String → Dict Value
payload username issued_at expires_at csrf_token nonce =
    ("v", int (pos 2))
    ∷ ("username", username)
    ∷ ("iat", int (pos issued_at))
    ∷ ("exp", int (pos expires_at))
    ∷ ("csrf", str csrf_token)
    ∷ ("nonce", str nonce)
    ∷ []

module _ (F : Floats) where
  -- What is read before the user is looked up: the times and the name. A `return None` is an
  -- exception here, since both end in None.
  unfoldable pub read_claims : ℕ → Value → Result (ℤ × ℤ × String)
  read_claims now payload = do
    version ← row_get null "v" payload
    raise_if (not (same_key F version (int (pos 2)))) (fail "None")
    iat ← value_item "iat" payload
    issued ← to_int F iat
    exp ← value_item "exp" payload
    expires ← to_int F exp
    raise_if (ltb_ℤ (pos (now + 60)) issued || leb_ℤ expires (pos now)) (fail "None")
    named ← value_item "username" payload
    ok (issued, expires, F.to_text named)

  -- What is done once the user has been found.
  unfoldable pub open_for : Value → ℤ × ℤ × String → Dict Value → Result PortalSession
  unfolding session_of
  open_for payload (issued, expires, name) user = do
    csrf ← value_item "csrf" payload
    raise_if (ltb (length (codes (F.to_text csrf))) 20) (fail "None")
    session_of F user issued expires (F.to_text csrf)

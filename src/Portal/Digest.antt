-- ===== src/Portal/Digest.antt =====
-- The passwords of portal_auth.py, as a login compares them.
use olivechain.Base.{
  ℕ, zero, suc, String, Bool, true, false, not, ◌&&◌, ◌||◌, Dict, List, [], ◌∷◌, eqb, if◌then◌else◌,
}
use olivechain.Base.Int.{ℤ, pos, ltb_ℤ}
use olivechain.Json.{Value, Floats, boolean, int, str}
use olivechain.Json.Access.{value_item, truthy, to_int}
use olivechain.Json.Dump.{encode}
use olivechain.Result.{
  Result, ok, err, attribute_error, value_error, or_raise, raise_if, ◌>>=◌, ◌>>◌,
}
use olivechain.Portal.Identity.{PortalLibrary, fail, pbkdf2_iterations}
use olivechain.Portal.Rows.{row_get, copy_row}

-- `hmac.compare_digest` of bytes
unfoldable pub same_bytes : List ℕ → List ℕ → Bool
same_bytes [] [] = true
same_bytes (b ∷ bs) (c ∷ cs) = eqb b c && same_bytes bs cs
same_bytes _ _ = false

abbrev pub zeros : ℕ → List ℕ
zeros zero = []
zeros (suc n) = 0 ∷ zeros n

module _ (L : PortalLibrary) (F : Floats) where
  -- `_unb64`
  unfoldable pub unb64 : Value → Result (List ℕ)
  unb64 (str s) = or_raise (L.b64decode s) (value_error "not base64: {}" (s ∷ []))
  unb64 _ = err (attribute_error "object has no attribute 'encode'" [])

  unfoldable pub derive : List ℕ → ℤ → String → Result (List ℕ)
  derive salt iterations password = do
    raise_if (ltb_ℤ iterations (pos 1)) (value_error "iteration value must be greater than 0." [])
    ok (L.pbkdf2 (encode password) salt iterations)

  row_digests : Value → String → Result (List ℕ × List ℕ)
  unfolding unb64 derive
  row_digests row password = do
    s ← value_item "salt" row
    salt ← unb64 s
    d ← value_item "digest" row
    expected ← unb64 d
    n ← row_get (int (pos pbkdf2_iterations)) "iterations" row
    iterations ← to_int F n
    actual ← derive salt iterations password
    ok (expected, actual)

  -- The digest that a row holds, and the one of an attempt under the row's salt and iterations.
  -- Where there is no row, zeros stand for them, so that the attempt takes as long.
  unfoldable pub digests : Value → String → Result (List ℕ × List ℕ)
  unfolding row_digests derive
  digests row password =
      if truthy F row
      then row_digests row password
      else (derive (zeros 16) (pos pbkdf2_iterations) password >>= λ actual. ok (zeros 32, actual))

  -- A login with the row of its user, a null if there is none.
  unfoldable pub judge : Value → String → Result (Dict Value)
  unfolding digests
  judge row password = do
    pair ← digests row password
    raise_if (not (truthy F row) || not (same_bytes pair.0 pair.1))
        (fail "invalid username or password")
    active ← row_get (boolean true) "active" row
    raise_if (not (truthy F active)) (fail "user is disabled")
    copy_row row

-- ===== src/Portal/Token/Authentic.antt =====
-- What a token that `parse_session` accepts stands for.
use olivechain.Base.{
  ℕ, ◌+◌, String, Bool, true, false, not, ◌||◌, Option, none, some, [], Dict, eq_iff, ◌≡◌, refl,
  sym, ◌∙◌, ap, inl, inr, length, ltb, if◌then◌else◌,
}
use olivechain.Base.Filter.{if-cases}
use olivechain.Base.Int.{ℤ, pos, leb_ℤ, ltb_ℤ}
use olivechain.Effects.{Exec, pure, reads, ◌>>=◌}
use olivechain.Effects.Bind.{bind-ok as exec_ok, reads-ok, raise_if-ok}
use olivechain.Json.{Value, Floats, null, int}
use olivechain.Json.Access.{item, value_item, to_int, same_key}
use olivechain.Json.Dump.{codes}
use olivechain.Result.{
  Exception, Result, ok, err, key_error, type_error, value_error, attribute_error, os_error,
  index_error, oracle_error, permission_error, ledger_error, wallet_auth_error, portal_auth_error,
  diverges, bind-ok, ok-injective,
}
use olivechain.Result
use olivechain.Portal.Identity.{PortalLibrary, fail}
use olivechain.Portal.Payload.{read_claims, open_for}
use olivechain.Portal.Rows.{row_get}
use olivechain.Portal.Session.{PortalSession, session_of, or_of_org}
use olivechain.Portal.Store.{UsersFile}
use olivechain.Base.Texts.{split_at}
use olivechain.Portal.Token.{
  is_ascii, compare_digest, or_none, open_payload, open_loaded, check_token, parse_parts,
  parse_session,
}
use olivechain.Portal.Users.{get_user}

raise_if-passed : (b : Bool) (t : String) → Result.raise_if b (fail t) ≡ ok tt → b ≡ false
raise_if-passed true t h = cc
raise_if-passed false t h = refl

or_passed : (a b : Bool) → a || b ≡ false → (a ≡ false) × (b ≡ false)
or_passed true b h = cc
or_passed false b h = (refl, h)

compare_digest-same :
    (expected supplied : String) → compare_digest expected supplied ≡ ok true → expected ≡ supplied
unfolding compare_digest
compare_digest-same expected supplied h = elim (if-cases (is_ascii supplied) _ _ _ h) [
  | inl (ascii, same) ↦ (eq_iff expected supplied).0 (ok-injective same)
  | inr (other, raised) ↦ cc
]

or_none-some :
    (r : Result PortalSession) (session : PortalSession)
    → or_none r ≡ ok (some session)
    → r ≡ ok session
unfolding or_none
or_none-some (ok x) session h =
    ap (λ o. elim o as (λ o. Result PortalSession) [ none ↦ ok x | some y ↦ ok y ]) (ok-injective h)
or_none-some (err (key_error t texts)) session h = cc
or_none-some (err (type_error t texts)) session h = cc
or_none-some (err (value_error t texts)) session h = cc
or_none-some (err (portal_auth_error t texts)) session h = cc
or_none-some (err (attribute_error t texts)) session h = cc
or_none-some (err (os_error t texts)) session h = cc
or_none-some (err (index_error t texts)) session h = cc
or_none-some (err (oracle_error t texts)) session h = cc
or_none-some (err (permission_error t texts)) session h = cc
or_none-some (err (ledger_error t texts)) session h = cc
or_none-some (err (wallet_auth_error t texts)) session h = cc
or_none-some (err diverges) session h = cc

module _ (F : Floats) where
  -- The times and the name that a payload is taken for.
  read_claims-IsTimely :
      (now : ℕ) (payload : Value) (claims : ℤ × ℤ × String)
      → read_claims F now payload ≡ ok claims
      → (leb_ℤ claims.1 (pos now) ≡ false)
        × (ltb_ℤ (pos (now + 60)) claims.0 ≡ false)
        × ((named : Value) × (value_item "username" payload ≡ ok named)
            × (claims.2 ≡ F.to_text named))
  unfolding read_claims
  read_claims-IsTimely now payload claims h =
      let (version, _, h₁) = bind-ok (row_get null "v" payload) _ claims h in
      let (_, _, h₂) =
        bind-ok (Result.raise_if (not (same_key F version (int (pos 2)))) (fail "None")) _ claims
          h₁ in
      let (iat, _, h₃) = bind-ok (value_item "iat" payload) _ claims h₂ in
      let (issued, _, h₄) = bind-ok (to_int F iat) _ claims h₃ in
      let (exp, _, h₅) = bind-ok (value_item "exp" payload) _ claims h₄ in
      let (expires, _, h₆) = bind-ok (to_int F exp) _ claims h₅ in
      let (_, timely, h₇) =
        bind-ok
          (Result.raise_if (ltb_ℤ (pos (now + 60)) issued || leb_ℤ expires (pos now)) (fail "None"))
          _ claims h₆ in
      let (named, got, h₈) = bind-ok (value_item "username" payload) _ claims h₇ in
      let (begun, unended) =
        or_passed (ltb_ℤ (pos (now + 60)) issued) _ (raise_if-passed _ "None" timely) in
      let same : (issued, expires, F.to_text named) ≡ claims = ok-injective h₈ in
      (
        ap (λ c. leb_ℤ c.1 (pos now)) (sym same) ∙ unended,
        ap (λ c. ltb_ℤ (pos (now + 60)) c.0) (sym same) ∙ begun,
        (named, got, ap (λ c. c.2) (sym same)),
      )

  session-parts :
      (user : Dict Value) (issued expires : ℤ) (csrf : String) (session : PortalSession)
      → session_of F user issued expires csrf ≡ ok session
      → (session.issued_at ≡ issued) × (session.expires_at ≡ expires) × (session.csrf_token ≡ csrf)
  unfolding session_of
  session-parts user issued expires csrf session h =
      let (username, _, h₁) = bind-ok (item "username" user) _ session h in
      let (display_name, _, h₂) = bind-ok (item "display_name" user) _ session h₁ in
      let (org_id, _, h₃) = bind-ok (item "org_id" user) _ session h₂ in
      let (org_name, _, h₄) =
        bind-ok (or_of_org F "org_name" (λ spec. spec.name) user) _ session h₃ in
      let (msp_id, _, h₅) =
        bind-ok (or_of_org F "msp_id" (λ spec. spec.msp_id) user) _ session h₄ in
      let (role, _, h₆) = bind-ok (item "role" user) _ session h₅ in
      let (identity_alias, _, h₇) = bind-ok (item "identity_alias" user) _ session h₆ in
      let made = sym (ok-injective h₇) in
      (ap (λ s. s.issued_at) made, ap (λ s. s.expires_at) made, ap (λ s. s.csrf_token) made)

  -- What the session of a payload is of the user who has been found for it.
  open_for-IsOf :
      (payload : Value) (claims : ℤ × ℤ × String) (user : Dict Value) (session : PortalSession)
      → open_for F payload claims user ≡ ok session
      → (session_of F user session.issued_at session.expires_at session.csrf_token ≡ ok session)
        × (session.issued_at ≡ claims.0)
        × (session.expires_at ≡ claims.1)
  unfolding open_for
  open_for-IsOf payload (issued, expires, name) user session h =
      let (csrf, _, h₁) = bind-ok (value_item "csrf" payload) _ session h in
      let (_, _, h₂) =
        bind-ok (Result.raise_if (ltb (length (codes (F.to_text csrf))) 20) (fail "None")) _ session
          h₁ in
      let (same_issued, same_expires, same_csrf) =
        session-parts user issued expires (F.to_text csrf) session h₂ in
      (
        ap (λ t. session_of F user t session.expires_at session.csrf_token) same_issued
            ∙ ap (λ t. session_of F user issued t session.csrf_token) same_expires
            ∙ ap (session_of F user issued expires) same_csrf
            ∙ h₂,
        same_issued,
        same_expires,
      )

module _ (L : PortalLibrary) (F : Floats) where
  -- The session is of the active user whom the payload names, and has begun and not ended, up to a
  -- minute of clock skew.
  abbrev pub IsLive : Value → ℕ → UsersFile → UsersFile → PortalSession → Type 0
  IsLive payload now s s' session =
      (named : Value) × (user : Dict Value) × (value_item "username" payload ≡ ok named)
      × (get_user L F (F.to_text named) true now s ≡ (ok user, s'))
      × (session_of F user session.issued_at session.expires_at session.csrf_token ≡ ok session)
      × (leb_ℤ session.expires_at (pos now) ≡ false)
      × (ltb_ℤ (pos (now + 60)) session.issued_at ≡ false)

  open_payload-IsLive :
      (payload : Value) (now : ℕ) (s s' : UsersFile) (session : PortalSession)
      → open_payload L F payload now s ≡ (ok session, s')
      → IsLive payload now s s' session
  unfolding open_payload
  open_payload-IsLive payload now s s' session h =
      let (claims, read, h₁) =
        reads-ok (λ s. read_claims F now payload)
          (λ claims.
            get_user L F claims.2 true now >>= λ user. reads (λ s. open_for F payload claims user))
          s session s' h in
      let (user, t, found, h₂) =
        exec_ok (get_user L F claims.2 true now)
          (λ user. reads (λ s. open_for F payload claims user)) s session s' h₁ in
      let (unended, begun, (named, got, name)) = read_claims-IsTimely F now payload claims read in
      let (of_user, same_issued, same_expires) =
        open_for-IsOf F payload claims user session (ap (λ r. r.0) h₂) in
      (
        named,
        user,
        got,
        ap (λ n. get_user L F n true now s) (sym name)
            ∙ found
            ∙ ap (λ t. (ok user, t)) (ap (λ r. r.1) h₂),
        of_user,
        ap (λ t. leb_ℤ t (pos now)) same_expires ∙ unended,
        ap (ltb_ℤ (pos (now + 60))) same_issued ∙ begun,
      )

  open_loaded-IsLive :
      (loaded : Option Value) (now : ℕ) (s s' : UsersFile) (session : PortalSession)
      → open_loaded L F loaded now s ≡ (ok (some session), s')
      → (payload : Value) × (loaded ≡ some payload) × IsLive payload now s s' session
  open_loaded-IsLive none now s s' session h = cc
  open_loaded-IsLive (some payload) now s s' session h =
      let opened = or_none-some (open_payload L F payload now s).0 session (ap (λ r. r.0) h) in
      (
        payload,
        refl,
        open_payload-IsLive payload now s s' session λ i. (opened i, ap (λ r. r.1) h i),
      )

  if_at :
      (same : Bool) (m n : Exec UsersFile (Option PortalSession)) (s : UsersFile)
      {r : Result (Option PortalSession) × UsersFile}
      → (if same then m else n) s ≡ r
      → (if same then m s else n s) ≡ r
  if_at true m n s h = h
  if_at false m n s h = h

  parts_of :
      (split : Option (String × String)) (now : ℕ) (s s' : UsersFile) (session : PortalSession)
      → parse_parts L F split now s ≡ (ok (some session), s')
      → (parts : String × String) × (split ≡ some parts)
        × (check_token L F parts now s ≡ (ok (some session), s'))
  parts_of none now s s' session h = cc
  parts_of (some parts) now s s' session h = (parts, refl, h)

  check_token-Authentic :
      (encoded supplied : String) (now : ℕ) (s s' : UsersFile) (session : PortalSession)
      → check_token L F (encoded, supplied) now s ≡ (ok (some session), s')
      → (payload : Value) × (L.seal encoded ≡ supplied)
        × (L.load_payload encoded ≡ some payload)
        × IsLive payload now s s' session
  unfolding check_token
  check_token-Authentic encoded supplied now s s' session h =
      let after : Bool → Exec UsersFile (Option PortalSession) =
        λ same. if same then open_loaded L F (L.load_payload encoded) now else pure none in
      let (_, h₁) =
        raise_if-ok (not (is_ascii encoded)) (value_error "ordinal not in range(128)" [])
          (λ done. reads (λ s. compare_digest (L.seal encoded) supplied) >>= after) s (some session)
          s' h in
      let (same, compared, h₂) =
        reads-ok (λ s. compare_digest (L.seal encoded) supplied) after s (some session) s' h₁ in
      elim (if-cases same _ _ _
        (if_at same (open_loaded L F (L.load_payload encoded) now) (pure none) s h₂)) [
          | inl (sealed, opened) ↦
              let (payload, loaded, live) =
                open_loaded-IsLive (L.load_payload encoded) now s s' session opened in
              (
                payload,
                compare_digest-same (L.seal encoded) supplied (compared ∙ ap ok sealed),
                loaded,
                live,
              )
          | inr (other, nothing) ↦ cc
        ]

  -- A token that parse_session accepts is a payload under the server's seal, and its session is
  -- made of the row that get_user, asked for an active user, finds for the name in the payload; at
  -- the time of the call the session has not expired, and it was issued no more than a minute
  -- later.
  pub parse_session-IsLive :
      (token : String) (now : ℕ) (s s' : UsersFile) (session : PortalSession)
      → parse_session L F (some token) now s ≡ (ok (some session), s')
      → (encoded supplied : String) × (payload : Value) × (split_at 46 token
          ≡ some (encoded, supplied))
        × (L.seal encoded ≡ supplied)
        × (L.load_payload encoded ≡ some payload)
        × IsLive payload now s s' session
  unfolding parse_session
  parse_session-IsLive token now s s' session h =
      let ((encoded, supplied), split, h') = parts_of (split_at 46 token) now s s' session h in
      let (payload, sealed, loaded, live) =
        check_token-Authentic encoded supplied now s s' session h' in
      (encoded, supplied, payload, split, sealed, loaded, live)

-- ===== src/Portal/Token/Round.antt =====
-- A token that has just been made is read back.
use text.Mathlib.TextLemmas.{nil-append, cons-append}
use olivechain.Base.{
  ℕ, ◌+◌, ◌≤◌, ◌<◌, String, ◌<>◌, Bool, true, false, not, ◌||◌, Option, none, some, List, [], Dict,
  ◌==◌, eq_refl, lookup, ◌≡◌, refl, sym, ◌∙◌, ap, length, ltb, if◌then◌else◌, arith,
}
use olivechain.Json.Dump.{codes}
use olivechain.Base.Int.{pos, ltb_ℤ, leb_ℤ}
use olivechain.Json.{Value, Floats, null, int, str}
use olivechain.Json.Access.{to_int, same_key}
use olivechain.Json.Sorted.{sorted}
use olivechain.Result.{Result, ok, err, type_error, value_error, ok-injective, raise_if, ◌>>=◌}
use olivechain.Effects.{Exec, pure, reads, raise_if as E_raise_if, ◌>>=◌ as ◌E>>=◌}
use olivechain.Effects.Bind.{bind-ran, bind-ok as exec_ok, reads-ok}
use olivechain.Portal.Identity.{PortalLibrary, fail}
use olivechain.Portal.Store.{UsersFile}
use olivechain.Portal.Session.{PortalSession, session_of}
use olivechain.Portal.Users.{get_user}
use olivechain.Portal.Payload.{payload, read_claims, open_for}
use olivechain.Portal.Rows.Stored.{stored, row_get-stored, get_or-stored, value_item-stored}
use olivechain.Base.Texts.{split_at, lacks, split_at-append}
use olivechain.Portal.Token.{
  is_ascii, compare_digest, or_none, open_payload, open_loaded, parse_parts, parse_session,
  SessionFor, session_user, encoded_payload, create_session,
}

dot_first : (seal : String) → split_at 46 ("." <> seal) ≡ some ("", seal)
unfolding split_at
dot_first seal = ap (split_at 46) (cons-append "." "" seal ∙ ap (String.◌∷◌ ".") (nil-append seal))

timely :
    (now ttl later : ℕ)
    → now ≤ later + 60
    → later < now + ttl
    → ltb_ℤ (pos (later + 60)) (pos now) || leb_ℤ (pos (now + ttl)) (pos later) ≡ false
timely now ttl later begun unended = ground arith

long_enough : (t : String) → 20 ≤ length (codes t) → ltb (length (codes t)) 20 ≡ false
long_enough t h = ground arith

read_claims-stored :
    (F : Floats) (username csrf nonce : String) (now ttl later : ℕ)
    → F.eq (F.of_int (pos 2)) (F.of_int (pos 2)) ≡ true
    → F.to_text (str username) ≡ username
    → now ≤ later + 60
    → later < now + ttl
    → read_claims F later (stored (payload (str username) now (now + ttl) csrf nonce))
      ≡ ok (pos now, pos (now + ttl), username)
unfolding read_claims payload lookup sorted to_int same_key
read_claims-stored F username csrf nonce now ttl later version text begun unended =
    let d = payload (str username) now (now + ttl) csrf nonce in
    rw
      (
        row_get-stored null "v" d,
        get_or-stored null "v" d (int (pos 2)) refl,
        version,
        value_item-stored "iat" d (int (pos now)) refl,
        value_item-stored "exp" d (int (pos (now + ttl))) refl,
        value_item-stored "username" d (str username) refl,
        text,
      )
      (ap (λ b. raise_if b (fail "None") >>= λ done. ok (pos now, pos (now + ttl), username))
        (timely now ttl later begun unended))

open_for-stored :
    (F : Floats) (username csrf nonce : String) (now ttl : ℕ) (user : Dict Value)
    → F.to_text (str csrf) ≡ csrf
    → 20 ≤ length (codes csrf)
    → open_for F
        (stored (payload (str username) now (now + ttl) csrf nonce))
        (pos now, pos (now + ttl), username)
        user
      ≡ session_of F user (pos now) (pos (now + ttl)) csrf
unfolding open_for payload lookup sorted
open_for-stored F username csrf nonce now ttl user text long =
    let d = payload (str username) now (now + ttl) csrf nonce in
    rw (value_item-stored "csrf" d (str csrf) refl, text)
      (ap
        (λ b.
          raise_if b (fail "None") >>= λ done. session_of F user (pos now) (pos (now + ttl)) csrf)
        (long_enough csrf long))

-- What the libraries do with texts: the base64url form and the seal are ASCII, the first without a
-- dot, and str() of a text is the text.
pub record AreTexts (L : PortalLibrary) (F : Floats) : Type 0 where
  pub same_text : (t : String) → F.to_text (str t) ≡ t
  pub undotted : (bytes : List ℕ) → lacks 46 (L.b64url bytes) ≡ true
  pub ascii : (bytes : List ℕ) → is_ascii (L.b64url bytes) ≡ true
  pub ascii_seal : (t : String) → is_ascii (L.seal t) ≡ true

module _ (L : PortalLibrary) (F : Floats) where
  abbrev pub token_payload : String → ℕ → ℕ → String → String → Dict Value
  token_payload username now ttl csrf nonce = payload (str username) now (now + ttl) csrf nonce

  open_payload-stored :
      (username csrf nonce : String) (now ttl later : ℕ) (s s' : UsersFile) (user : Dict Value)
      → F.eq (F.of_int (pos 2)) (F.of_int (pos 2)) ≡ true
      → AreTexts L F
      → now ≤ later + 60
      → later < now + ttl
      → 20 ≤ length (codes csrf)
      → get_user L F username true later s ≡ (ok user, s')
      → open_payload L F (stored (token_payload username now ttl csrf nonce)) later s
        ≡ (session_of F user (pos now) (pos (now + ttl)) csrf, s')
  unfolding open_payload
  open_payload-stored username csrf nonce now ttl later s s' user version texts begun unended long
        found =
      let p = stored (token_payload username now ttl csrf nonce) in
      bind-ran (reads (λ s. read_claims F later p))
        (λ claims.
          get_user L F claims.2 true later E>>= λ user. reads (λ s. open_for F p claims user))
        s (pos now, pos (now + ttl), username) s
        (ap (λ r. (r, s))
          (read_claims-stored F username csrf nonce now ttl later version (texts.same_text username)
            begun unended))
      ∙ bind-ran (get_user L F username true later)
          (λ user. reads (λ s. open_for F p (pos now, pos (now + ttl), username) user)) s user s'
          found
      ∙ ap (λ r. (r, s'))
          (open_for-stored F username csrf nonce now ttl user (texts.same_text csrf) long)

  compare_digest_self : (t : String) → is_ascii t ≡ true → compare_digest t t ≡ ok true
  unfolding compare_digest
  compare_digest_self t h =
      ap
        (λ b.
          if b
          then ok (t == t)
          else err (type_error "comparing strings with non-ASCII characters is not supported" []))
        h
      ∙ ap ok (eq_refl t)

  checked :
      (e : String) (later : ℕ) (s : UsersFile)
      (after : Bool → Exec UsersFile (Option PortalSession))
      → is_ascii e ≡ true
      → is_ascii (L.seal e) ≡ true
      → (E_raise_if (not (is_ascii e)) (value_error "ordinal not in range(128)" []) E>>= λ done.
            reads (λ s. compare_digest (L.seal e) (L.seal e)) E>>= after)
          s
        ≡ after true s
  checked e later s after ascii ascii_seal =
      bind-ran (E_raise_if (not (is_ascii e)) (value_error "ordinal not in range(128)" []))
        (λ done. reads (λ s. compare_digest (L.seal e) (L.seal e)) E>>= after) s tt s
        (ap (λ b. (raise_if (not b) (value_error "ordinal not in range(128)" []), s)) ascii)
      ∙ bind-ran (reads (λ s. compare_digest (L.seal e) (L.seal e))) after s true s
          (ap (λ r. (r, s)) (compare_digest_self (L.seal e) ascii_seal))

  parse_session-made :
      (username csrf nonce : String) (now ttl later : ℕ) (s s' : UsersFile) (user : Dict Value)
      (session : PortalSession)
      → F.eq (F.of_int (pos 2)) (F.of_int (pos 2)) ≡ true
      → AreTexts L F
      → now ≤ later + 60
      → later < now + ttl
      → 20 ≤ length (codes csrf)
      → L.load_payload (encoded_payload L F (token_payload username now ttl csrf nonce))
        ≡ some (stored (token_payload username now ttl csrf nonce))
      → get_user L F username true later s ≡ (ok user, s')
      → session_of F user (pos now) (pos (now + ttl)) csrf ≡ ok session
      → parse_session L F
          (some (
            encoded_payload L F (token_payload username now ttl csrf nonce)
            <> "."
            <> L.seal (encoded_payload L F (token_payload username now ttl csrf nonce))))
          later
          s
        ≡ (ok (some session), s')
  unfolding parse_session or_none
  parse_session-made username csrf nonce now ttl later s s' user session version texts begun unended
        long loads found made =
      let e = encoded_payload L F (token_payload username now ttl csrf nonce) in
      let after : Bool → Exec UsersFile (Option PortalSession) =
        λ same. if same then open_loaded L F (L.load_payload e) later else pure none in
      ap (λ o. parse_parts L F o later s)
        (split_at-append 46 e ("." <> L.seal e) (L.seal e) (texts.undotted _)
          (dot_first (L.seal e)))
      ∙ checked e later s after (texts.ascii _) (texts.ascii_seal e)
      ∙ ap (λ o. open_loaded L F o later s) loads
      ∙ ap (λ (r : Result PortalSession × UsersFile). (or_none r.0, r.1))
          (open_payload-stored username csrf nonce now ttl later s s' user version texts begun
            unended long found)
      ∙ ap (λ r. (or_none r, s')) made

  create_session-Made :
      (ttl : ℕ) (who : SessionFor) (now : ℕ) (csrf nonce token : String) (session : PortalSession)
      (s s' : UsersFile)
      → create_session L F ttl who now csrf nonce s ≡ (ok (token, session), s')
      → token
        ≡ encoded_payload L F (payload session.username now (now + ttl) csrf nonce)
          <> "."
          <> L.seal (encoded_payload L F (payload session.username now (now + ttl) csrf nonce))
  unfolding create_session
  create_session-Made ttl who now csrf nonce token session s s' h =
      let with_token : PortalSession → Exec UsersFile (String × PortalSession) = λ made.
        let e = encoded_payload L F (payload made.username now (now + ttl) csrf nonce) in
        pure (e <> "." <> L.seal e, made) in
      let (user, t, _, h₁) =
        exec_ok (session_user L F who now)
          (λ user. reads (λ s. session_of F user (pos now) (pos (now + ttl)) csrf) E>>= with_token)
          s (token, session) s' h in
      let (made, _, h₂) =
        reads-ok (λ s. session_of F user (pos now) (pos (now + ttl)) csrf) with_token t
          (token, session) s' h₁ in
      let same = ok-injective (ap (λ r. r.0) h₂) in
      sym (ap (λ p. p.0) same)
      ∙ ap
          (λ (p : String × PortalSession).
            let e = encoded_payload L F (payload p.1.username now (now + ttl) csrf nonce) in
            e <> "." <> L.seal e)
          same

  -- A token that create_session has returned is read back as the same session at any later time
  -- before the session ends, and up to a minute before it begins, if the session is of a user name
  -- that is a text, get_user still finds an active user for it, whose row makes the same session,
  -- the CSRF token has 20 characters at least, and json.loads reads the payload of the token as it
  -- was written; provided that the texts of the libraries are as in AreTexts, and that 2 equals
  -- itself as a float.
  pub create_session-parse_session :
      (version : F.eq (F.of_int (pos 2)) (F.of_int (pos 2)) ≡ true) (texts : AreTexts L F) (ttl : ℕ)
      (who : SessionFor) (now : ℕ) (csrf nonce token : String) (session : PortalSession)
      (s s' : UsersFile)
      → create_session L F ttl who now csrf nonce s ≡ (ok (token, session), s')
      → (username : String) (later : ℕ) (t t' : UsersFile) (user : Dict Value)
      → session.username ≡ str username
      → get_user L F username true later t ≡ (ok user, t')
      → session_of F user (pos now) (pos (now + ttl)) csrf ≡ ok session
      → L.load_payload (encoded_payload L F (token_payload username now ttl csrf nonce))
        ≡ some (stored (token_payload username now ttl csrf nonce))
      → 20 ≤ length (codes csrf)
      → now ≤ later + 60
      → later < now + ttl
      → parse_session L F (some token) later t ≡ (ok (some session), t')
  create_session-parse_session version texts ttl who now csrf nonce token session s s' h username
        later t t' user named found made loads long begun unended =
      let is =
        create_session-Made ttl who now csrf nonce token session s s' h
        ∙ ap
            (λ v.
              let e = encoded_payload L F (payload v now (now + ttl) csrf nonce) in
              e <> "." <> L.seal e)
            named in
      ap (λ token. parse_session L F (some token) later t) is
      ∙ parse_session-made username csrf nonce now ttl later t t' user session version texts begun
          unended long loads found made

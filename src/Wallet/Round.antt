-- ===== src/Wallet/Round.antt =====
-- A wallet's session that is made, and read back from its token.
use olivechain.Base.{
  Bool-cases, inl, inr, ℕ, ◌+◌, ◌≤◌, ◌<◌, String, ◌<>◌, Bool, true, false, not, ◌&&◌, ◌||◌, Option,
  none, some, [], ◌∷◌, List, Dict, lookup, length, ltb, ◌≡◌, refl, sym, ◌∙◌, ap, eq_refl,
  if◌then◌else◌, arith,
}
use olivechain.Base.Int.{ℤ, pos, leb_ℤ, ltb_ℤ}
use olivechain.Crypto.{Crypto}
use olivechain.Json.{Value, Floats, int, str, null, dict_value}
use olivechain.Json.Access.{item, get_or, is_text, same_key, to_int}
use olivechain.Json.Dump.{codes, canonical_json}
use olivechain.Result.{
  Result, ok, err, raise_if, or_raise, key_error, value_error, type_error, bind-ok, ok-injective,
  ◌>>=◌,
}
use olivechain.Wallet.Address.{is_address, WalletLibrary, validate_address, fail}
use olivechain.Wallet.Session.{
  WalletSession, SessionLibrary, is_ascii, session_from_wallet, session_payload, create_session,
  open_payload, check_token, parse_session, is_nonempty, or_none,
}

-- What a text of base64url and a token are: ASCII without a dot, cut at its only dot.
pub record AreTokens (L : SessionLibrary) : Type 0 where
  pub plain : (bytes : List ℕ) → is_ascii (L.b64url bytes) ≡ true
  pub sealed : (text : String) → is_ascii (L.seal text) ≡ true
  pub splits :
      (bytes : List ℕ) (text : String)
      → L.split_dot (L.b64url bytes <> "." <> L.seal text) ≡ some (L.b64url bytes, L.seal text)

timely :
    (now ttl later : ℕ)
    → now ≤ later + 60
    → later < now + ttl
    → (ltb_ℤ (pos (later + 60)) (pos now) || leb_ℤ (pos (now + ttl)) (pos later)) ≡ false
timely now ttl later begun unended = ground arith

long_enough : (n : ℕ) → 20 ≤ n → ltb n 20 ≡ false
long_enough n h = ground arith

-- A computation whose first part is known.
goes_on : {A B : Type 0} (m : Result A) (f : A → Result B) (a : A) → m ≡ ok a → (m >>= f) ≡ f a
goes_on m f a h = ap (λ r. r >>= f) h

read_item : (key : String) (d : Dict Value) (v : Value) → lookup key d ≡ some v → item key d ≡ ok v
read_item key d v h = ap (λ o. or_raise o (key_error "{}" (key ∷ []))) h

module _ (W : WalletLibrary) (F : Floats) (C : Crypto) (L : SessionLibrary) where
  opens :
      (version : same_key F (int (pos 3)) (int (pos 3)) ≡ true) (address csrf nonce : String)
      (now ttl later : ℕ) (read : Dict Value) (wallet : Dict Value)
      (wallet_lookup : String → Result (Option (Dict Value)))
      → lookup "v" read ≡ some (int (pos 3))
      → lookup "iat" read ≡ some (int (pos now))
      → lookup "exp" read ≡ some (int (pos (now + ttl)))
      → lookup "wallet" read ≡ some (str address)
      → lookup "csrf" read ≡ some (str csrf)
      → F.to_text (str address) ≡ address
      → F.to_text (str csrf) ≡ csrf
      → validate_address W C address ≡ ok address
      → wallet_lookup address ≡ ok (some wallet)
      → is_nonempty W F C (some wallet) ≡ true
      → is_text "active" (get_or null "status" wallet) ≡ true
      → 20 ≤ length (codes csrf)
      → now ≤ later + 60
      → later < now + ttl
      → open_payload W F C read wallet_lookup later
        ≡ session_from_wallet W F C wallet (pos now) (pos (now + ttl)) csrf
  unfolding open_payload to_int
  opens version address csrf nonce now ttl later read wallet wallet_lookup v iat exp named token
        text text' valid found nonempty active long begun unended =
      let version_read : same_key F (get_or null "v" read) (int (pos 3)) ≡ true =
        ap (λ o. same_key F (elim o as (λ o. Value) [ none ↦ null | some w ↦ w ]) (int (pos 3))) v
        ∙ version in
      goes_on (raise_if (not (same_key F (get_or null "v" read) (int (pos 3)))) (fail "None")) _ tt
        (ap (λ b. raise_if (not b) (fail "None")) version_read)
      ∙ goes_on (item "iat" read) _ (int (pos now)) (read_item "iat" read (int (pos now)) iat)
      ∙ goes_on (item "exp" read) _ (int (pos (now + ttl))) (read_item "exp" read _ exp)
      ∙ goes_on
          (raise_if (ltb_ℤ (pos (later + 60)) (pos now) || leb_ℤ (pos (now + ttl)) (pos later))
            (fail "None"))
          _ tt (ap (λ b. raise_if b (fail "None")) (timely now ttl later begun unended))
      ∙ goes_on (item "wallet" read) _ (str address) (read_item "wallet" read _ named)
      ∙ goes_on (validate_address W C (F.to_text (str address))) _ address
          (ap (validate_address W C) text ∙ valid)
      ∙ goes_on (wallet_lookup address) _ (some wallet) found
      ∙ goes_on
          (raise_if
            (not
              (is_nonempty W F C (some wallet) && is_text "active" (get_or null "status" wallet)))
            (fail "None"))
          _ tt
          (ap (λ b. raise_if (not b) (fail "None"))
            (ap (λ b. b && is_text "active" (get_or null "status" wallet)) nonempty ∙ active))
      ∙ goes_on (item "csrf" read) _ (str csrf) (read_item "csrf" read _ token)
      ∙ goes_on (raise_if (ltb (length (codes (F.to_text (str csrf)))) 20) (fail "None")) _ tt (
          ap (λ t. raise_if (ltb (length (codes t)) 20) (fail "None")) text'
          ∙ ap (λ b. raise_if b (fail "None")) (long_enough (length (codes csrf)) long))
      ∙ ap (session_from_wallet W F C wallet (pos now) (pos (now + ttl))) text'

  session-address :
      (wallet : Dict Value) (issued expires : ℤ) (csrf : String) (s : WalletSession)
      → session_from_wallet W F C wallet issued expires csrf ≡ ok s
      → (text : String) × (validate_address W C text ≡ ok s.wallet_address)
  unfolding session_from_wallet
  session-address wallet issued expires csrf s h =
      let (v, has, h₁) = bind-ok (item "wallet_address" wallet) _ s h in
      let (address, valid, h₂) = bind-ok (validate_address W C (F.to_text v)) _ s h₁ in
      (F.to_text v, valid ∙ ap (λ s. ok s.wallet_address) (ok-injective h₂))

  abbrev token_for : String → ℕ → ℕ → String → String → String
  token_for address now ttl csrf nonce =
      let encoded = L.b64url (
        canonical_json F (dict_value (session_payload W F C address now (now + ttl) csrf nonce))) in
      encoded <> "." <> L.seal encoded

  checks :
      (tokens : AreTokens L) (bytes : List ℕ) (read : Dict Value)
      (wallet_lookup : String → Result (Option (Dict Value))) (later : ℕ) (s : WalletSession)
      → L.decode_payload (L.b64url bytes) ≡ some read
      → open_payload W F C read wallet_lookup later ≡ ok s
      → check_token W F C L (L.b64url bytes, L.seal (L.b64url bytes)) wallet_lookup later
        ≡ ok (some s)
  unfolding check_token
  checks tokens bytes read wallet_lookup later s decoded opened =
      let encoded : String = L.b64url bytes in
      let loaded : Option (Dict Value) → Result (Option WalletSession) = λ o.
        ok (elim o as (λ o. Option WalletSession) [
          | none ↦ none
          | some payload ↦ or_none W F C (open_payload W F C payload wallet_lookup later)
        ]) in
      goes_on (raise_if (not (is_ascii encoded)) (value_error "ordinal not in range(128)" [])) _ tt
        (ap (λ b. raise_if (not b) (value_error "ordinal not in range(128)" []))
          (tokens.plain bytes))
      ∙ goes_on
          (raise_if (not (is_ascii (L.seal encoded)))
            (type_error "comparing strings with non-ASCII characters" []))
          _ tt
          (ap (λ b. raise_if (not b) (type_error "comparing strings with non-ASCII characters" []))
            (tokens.sealed encoded))
      ∙ ap (λ b. if not b then ok none else loaded (L.decode_payload encoded))
          (eq_refl (L.seal encoded))
      ∙ ap loaded decoded
      ∙ ap (λ r. ok (or_none W F C r)) opened

  parses :
      (tokens : AreTokens L) (bytes : List ℕ) (read : Dict Value)
      (wallet_lookup : String → Result (Option (Dict Value))) (later : ℕ) (s : WalletSession)
      → L.decode_payload (L.b64url bytes) ≡ some read
      → open_payload W F C read wallet_lookup later ≡ ok s
      → parse_session W F C L
          (some (L.b64url bytes <> "." <> L.seal (L.b64url bytes)))
          wallet_lookup
          later
        ≡ ok (some s)
  unfolding parse_session
  parses tokens bytes read wallet_lookup later s decoded opened =
      ap
        (λ o. elim o as (λ o. Result (Option WalletSession)) [
          | none ↦ ok none
          | some parts ↦ check_token W F C L parts wallet_lookup later
        ])
        (tokens.splits bytes (L.b64url bytes))
      ∙ checks tokens bytes read wallet_lookup later s decoded opened

  module _
      (steady : (text : String)
        → W.upper (W.strip (W.upper (W.strip text))) ≡ W.upper (W.strip text)) where
    valid_again :
        (text address : String)
        → validate_address W C text ≡ ok address
        → validate_address W C address ≡ ok address
    unfolding validate_address
    valid_again text address h =
        let value = W.upper (W.strip text) in
        let judged : String → Bool → Result String =
          λ v b. if b then ok v else err (fail "invalid OliveChain wallet address") in
        elim (Bool-cases (is_address value)) [
          | inr wrong ↦ absurd (cc (sym (ap (judged value) wrong) ∙ h))
          | inl right ↦
              let same : value ≡ address = ok-injective (sym (ap (judged value) right) ∙ h) in
              let kept : W.upper (W.strip address) ≡ value =
                ap (λ a. W.upper (W.strip a)) (sym same) ∙ steady text in
              ap (λ a. judged a (is_address a)) kept ∙ ap (judged value) right ∙ ap ok same
        ]

    nonempty_if :
        (w : Dict Value)
        → is_text "active" (get_or null "status" w) ≡ true
        → is_nonempty W F C (some w) ≡ true
    unfolding lookup
    nonempty_if [] h = cc
    nonempty_if (e ∷ d) h = refl

    -- A wallet's token that create_session has returned is read back as the same session at any later
    -- time before the session ends, and up to a minute before it begins, if the wallet that is found
    -- for the address is active and makes the same session, the CSRF token has 20 characters at
    -- least, and the payload is read with the keys and values that were written; provided that
    -- texts are their own str(), that strip and upper change nothing the second time, that tokens
    -- are as in AreTokens, and that 3 equals itself as a float.
    pub parse_session-create_session :
        (version : F.eq (F.of_int (pos 3)) (F.of_int (pos 3)) ≡ true) (tokens : AreTokens L)
        (texts : (s : String) → F.to_text (str s) ≡ s) (ttl now later : ℕ)
        (wallet found read : Dict Value) (csrf nonce token : String) (session : WalletSession)
        (wallet_lookup : String → Result (Option (Dict Value)))
        → create_session W F C L ttl wallet now csrf nonce ≡ ok (token, session)
        → wallet_lookup session.wallet_address ≡ ok (some found)
        → is_text "active" (get_or null "status" found) ≡ true
        → session_from_wallet W F C found (pos now) (pos (now + ttl)) csrf ≡ ok session
        → L.decode_payload (
            L.b64url (
              canonical_json F (
                dict_value
                  (session_payload W F C session.wallet_address now (now + ttl) csrf nonce))))
          ≡ some read
        → ((key : String)
            → lookup key read
              ≡ lookup key
                  (session_payload W F C session.wallet_address now (now + ttl) csrf nonce))
        → 20 ≤ length (codes csrf)
        → now ≤ later + 60
        → later < now + ttl
        → parse_session W F C L (some token) wallet_lookup later ≡ ok (some session)
    unfolding create_session same_key lookup
    parse_session-create_session version tokens texts ttl now later wallet found read csrf nonce
          token session wallet_lookup h looked active again decoded same long begun unended =
        let (s, made, h₁) =
          bind-ok (session_from_wallet W F C wallet (pos now) (pos (now + ttl)) csrf) _
            (token, session) h in
        let is = ok-injective h₁ in
        let address = session.wallet_address in
        let bytes : List ℕ =
          canonical_json F
            (dict_value (session_payload W F C address now (now + ttl) csrf nonce)) in
        let encoded : String = L.b64url bytes in
        let (text, valid) = session-address found (pos now) (pos (now + ttl)) csrf session again in
        let written : token ≡ encoded <> "." <> L.seal encoded =
          sym (ap (λ p. p.0) is)
          ∙ ap (λ s. token_for s.wallet_address now ttl csrf nonce) (ap (λ p. p.1) is) in
        let opened =
          opens version address csrf nonce now ttl later read found wallet_lookup (same "v")
            (same "iat") (same "exp") (same "wallet") (same "csrf") (texts address) (texts csrf)
            (valid_again text address valid) looked (nonempty_if found active) active long begun
            unended
          ∙ again in
        ap (λ t. parse_session W F C L (some t) wallet_lookup later) written
        ∙ parses tokens bytes read wallet_lookup later session decoded opened

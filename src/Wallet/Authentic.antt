-- ===== src/Wallet/Authentic.antt =====
-- What a session that parse_session accepts stands for.
use mathlib.Core.Path.{subst}
use olivechain.Base.{
  ℕ, ◌+◌, String, Bool, true, false, not, ◌&&◌, ◌||◌, Option, none, some, [], ◌∷◌, Dict, ◌==◌, ◌≡◌,
  refl, sym, ◌∙◌, ap, inl, inr, eq_iff, ltb, length, if◌then◌else◌, Option-cases,
}
use olivechain.Base.Int.{ℤ, pos, leb_ℤ, ltb_ℤ}
use olivechain.Crypto.{Crypto}
use olivechain.Json.{Value, Floats, int, null}
use olivechain.Json.Access.{item, get_or, to_int, is_text, same_key}
use olivechain.Json.Dump.{codes}
use olivechain.Result.{Result, ok, err, raise_if, value_error, type_error, bind-ok, ok-injective}
use olivechain.Wallet.Address.{WalletLibrary, fail, validate_address}
use olivechain.Wallet.Session.{
  WalletSession, SessionLibrary, session_from_wallet, open_payload, check_token, parse_session,
  is_nonempty, the_wallet, text_at, is_ascii, or_none,
}

module _ (W : WalletLibrary) (F : Floats) (C : Crypto) where
  -- What a session has of its wallet: its address and, while the role of the wallet is not active,
  -- no organization, no identity and the role of a consumer.
  pub record IsOfWallet (wallet : Dict Value) (s : WalletSession) : Type 0 where
    pub stated : Value
    pub held : item "wallet_address" wallet ≡ ok stated
    pub address : validate_address W C (F.to_text stated) ≡ ok s.wallet_address
    pub username : s.username ≡ s.wallet_address
    pub role_status : s.role_status ≡ text_at W F C "role_status" "consumer" wallet
    pub display_name : s.display_name ≡ text_at W F C "display_name" s.wallet_address wallet
    pub role :
        s.role
        ≡ (if s.role_status == "active" then text_at W F C "role" "consumer" wallet else "consumer")
    pub org_id :
        s.org_id ≡ (if s.role_status == "active" then text_at W F C "org_id" "" wallet else "")
    pub msp_id :
        s.msp_id ≡ (if s.role_status == "active" then text_at W F C "msp_id" "" wallet else "")
    pub client_id_hash :
        s.client_id_hash
        ≡ (if s.role_status == "active" then text_at W F C "client_id_hash" "" wallet else "")
    pub identity_alias :
        s.identity_alias
        ≡ (if s.role_status == "active" then text_at W F C "identity_alias" "" wallet else "")

  -- The session is of the wallet that the payload names, which is active, with the payload's token,
  -- and has begun and not ended, up to a minute of clock skew.
  pub record IsLive (payload : Dict Value) (wallet_lookup : String → Result (Option (Dict Value)))
      (now : ℕ) (s : WalletSession) : Type 0 where
    pub named : Value
    pub names : item "wallet" payload ≡ ok named
    pub address : String
    pub valid : validate_address W C (F.to_text named) ≡ ok address
    pub wallet : Dict Value
    pub found : wallet_lookup address ≡ ok (some wallet)
    pub active : is_text "active" (get_or null "status" wallet) ≡ true
    pub of_wallet : IsOfWallet wallet s
    pub csrf : Value
    pub carried : item "csrf" payload ≡ ok csrf
    pub csrf_token : s.csrf_token ≡ F.to_text csrf
    pub unended : leb_ℤ s.expires_at (pos now) ≡ false
    pub begun : ltb_ℤ (pos (now + 60)) s.issued_at ≡ false

  raise_if-passed : (b : Bool) (t : String) → raise_if b (fail t) ≡ ok tt → b ≡ false
  raise_if-passed true t h = cc
  raise_if-passed false t h = refl

  or_passed : (a b : Bool) → a || b ≡ false → (a ≡ false) × (b ≡ false)
  or_passed true b h = cc
  or_passed false b h = (refl, h)

  session-times :
      (wallet : Dict Value) (issued expires : ℤ) (csrf : String) (s : WalletSession)
      → session_from_wallet W F C wallet issued expires csrf ≡ ok s
      → (s.issued_at ≡ issued) × (s.expires_at ≡ expires)
  unfolding session_from_wallet
  session-times wallet issued expires csrf s h =
      let (v, _, h₁) = bind-ok (item "wallet_address" wallet) _ s h in
      let (address, _, h₂) = bind-ok (validate_address W C (F.to_text v)) _ s h₁ in
      (
        sym (ap (λ s. s.issued_at) (ok-injective h₂)),
        sym (ap (λ s. s.expires_at) (ok-injective h₂)),
      )

  session-IsOfWallet :
      (wallet : Dict Value) (issued expires : ℤ) (csrf : String) (s : WalletSession)
      → session_from_wallet W F C wallet issued expires csrf ≡ ok s
      → IsOfWallet wallet s × (s.csrf_token ≡ csrf)
  unfolding session_from_wallet
  session-IsOfWallet wallet issued expires csrf s h =
      let (v, held, h₁) = bind-ok (item "wallet_address" wallet) _ s h in
      let (address, valid, h₂) = bind-ok (validate_address W C (F.to_text v)) _ s h₁ in
      let is = ok-injective h₂ in
      subst (λ s. IsOfWallet wallet s × (s.csrf_token ≡ csrf)) is
        (
          record {
            stated = v;
            held = held;
            address = valid;
            username = refl;
            role_status = refl;
            display_name = refl;
            role = refl;
            org_id = refl;
            msp_id = refl;
            client_id_hash = refl;
            identity_alias = refl;
          },
          refl,
        )

  is_nonempty-some :
      (found : Option (Dict Value)) (b : Bool)
      → not (is_nonempty W F C found && b) ≡ false
      → (found ≡ some (the_wallet W F C found)) × (b ≡ true)
  is_nonempty-some none b h = cc
  is_nonempty-some (some []) b h = cc
  is_nonempty-some (some (e ∷ d)) true h = (refl, refl)
  is_nonempty-some (some (e ∷ d)) false h = cc

  open_payload-IsLive :
      (payload : Dict Value) (wallet_lookup : String → Result (Option (Dict Value))) (now : ℕ)
      (s : WalletSession)
      → open_payload W F C payload wallet_lookup now ≡ ok s
      → IsLive payload wallet_lookup now s
  unfolding open_payload
  open_payload-IsLive payload wallet_lookup now s h =
      let (_, _, h₁) =
        bind-ok (raise_if (not (same_key F (get_or null "v" payload) (int (pos 3)))) (fail "None"))
          _ s h in
      let (iat, _, h₂) = bind-ok (item "iat" payload) _ s h₁ in
      let (issued, _, h₃) = bind-ok (to_int F iat) _ s h₂ in
      let (exp, _, h₄) = bind-ok (item "exp" payload) _ s h₃ in
      let (expires, _, h₅) = bind-ok (to_int F exp) _ s h₄ in
      let (_, timely, h₆) =
        bind-ok (raise_if (ltb_ℤ (pos (now + 60)) issued || leb_ℤ expires (pos now)) (fail "None"))
          _ s h₅ in
      let (named, names, h₇) = bind-ok (item "wallet" payload) _ s h₆ in
      let (address, valid, h₈) = bind-ok (validate_address W C (F.to_text named)) _ s h₇ in
      let (found, looked, h₉) = bind-ok (wallet_lookup address) _ s h₈ in
      let (_, active, k) =
        bind-ok
          (raise_if
            (not (
              is_nonempty W F C found
              && is_text "active" (get_or null "status" (the_wallet W F C found))))
            (fail "None"))
          _ s h₉ in
      let (csrf, carried, k₁) = bind-ok (item "csrf" payload) _ s k in
      let (_, _, k₂) =
        bind-ok (raise_if (ltb (length (codes (F.to_text csrf))) 20) (fail "None")) _ s k₁ in
      let (begun, unended) =
        or_passed (ltb_ℤ (pos (now + 60)) issued) _ (raise_if-passed _ "None" timely) in
      let (is_some, is_active) = is_nonempty-some found _ (raise_if-passed _ "None" active) in
      let (same_issued, same_expires) =
        session-times (the_wallet W F C found) issued expires (F.to_text csrf) s k₂ in
      let (of_wallet, token) =
        session-IsOfWallet (the_wallet W F C found) issued expires (F.to_text csrf) s k₂ in
      record {
        named = named;
        names = names;
        address = address;
        valid = valid;
        wallet = the_wallet W F C found;
        found = looked ∙ ap ok is_some;
        active = is_active;
        of_wallet = of_wallet;
        csrf = csrf;
        carried = carried;
        csrf_token = token;
        unended = ap (λ t. leb_ℤ t (pos now)) same_expires ∙ unended;
        begun = ap (ltb_ℤ (pos (now + 60))) same_issued ∙ begun;
      }

  or_none-some :
      (r : Result WalletSession) (s : WalletSession) → or_none W F C r ≡ some s → r ≡ ok s
  or_none-some (ok x) s h = ap (λ o. elim o [ none ↦ ok x | some y ↦ ok y ]) h
  or_none-some (err e) s h = cc

  opened :
      (o : Option (Dict Value)) (f : Dict Value → Option WalletSession) (s : WalletSession)
      → (elim o [ none ↦ none | some p ↦ f p ]) ≡ some s
      → (p : Dict Value) × (o ≡ some p) × (f p ≡ some s)
  opened none f s h = cc
  opened (some p) f s h = (p, refl, h)

  if_not-some :
      (b : Bool) (o : Option WalletSession) (s : WalletSession)
      → (if not b then ok none else ok o) ≡ ok (some s)
      → (b ≡ true) × (o ≡ some s)
  if_not-some true o s h = (refl, ok-injective h)
  if_not-some false o s h = cc

  check_token-Authentic :
      (L : SessionLibrary) (encoded supplied : String)
      (wallet_lookup : String → Result (Option (Dict Value))) (now : ℕ) (s : WalletSession)
      → check_token W F C L (encoded, supplied) wallet_lookup now ≡ ok (some s)
      → (payload : Dict Value) × (L.seal encoded ≡ supplied)
        × (L.decode_payload encoded ≡ some payload)
        × IsLive payload wallet_lookup now s
  unfolding check_token
  check_token-Authentic L encoded supplied wallet_lookup now s h =
      let (_, _, h₁) =
        bind-ok (raise_if (not (is_ascii encoded)) (value_error "ordinal not in range(128)" [])) _
          (some s) h in
      let (_, _, h₂) =
        bind-ok
          (raise_if (not (is_ascii supplied))
            (type_error "comparing strings with non-ASCII characters" []))
          _ (some s) h₁ in
      let (sealed, there) = if_not-some (L.seal encoded == supplied) _ s h₂ in
      let (payload, decoded, made) =
        opened (L.decode_payload encoded)
          (λ payload. or_none W F C (open_payload W F C payload wallet_lookup now)) s there in
      (
        payload,
        (eq_iff (L.seal encoded) supplied).0 sealed,
        decoded,
        open_payload-IsLive payload wallet_lookup now s (or_none-some _ s made),
      )

  -- A token that parse_session accepts is a payload under the server's seal, and its session is of
  -- the wallet that the lookup finds, active, for the address in the payload: the session has that
  -- wallet's own address, and its role, organization and identity while its role is active, and the
  -- payload's CSRF token; at the time of the call it has not expired, and it was issued no more
  -- than a minute later.
  pub parse_session-Authentic :
      (L : SessionLibrary) (token : String) (wallet_lookup : String → Result (Option (Dict Value)))
      (now : ℕ) (s : WalletSession)
      → parse_session W F C L (some token) wallet_lookup now ≡ ok (some s)
      → (encoded supplied : String) × (payload : Dict Value) × (L.split_dot token
          ≡ some (encoded, supplied))
        × (L.seal encoded ≡ supplied)
        × (L.decode_payload encoded ≡ some payload)
        × IsLive payload wallet_lookup now s
  unfolding parse_session
  parse_session-Authentic L token wallet_lookup now s h = elim (Option-cases (L.split_dot token)) [
    | inl missing ↦ absurd (
        cc (
          sym (
            ap
              (λ o. elim o [
                | none ↦ ok none
                | some parts ↦ check_token W F C L parts wallet_lookup now
              ])
              missing)
          ∙ h))
    | inr ((encoded, supplied), split) ↦
        let h₁ =
          sym (
            ap
              (λ o. elim o [
                | none ↦ ok none
                | some parts ↦ check_token W F C L parts wallet_lookup now
              ])
              split)
          ∙ h in
        let (payload, sealed, decoded, live) =
          check_token-Authentic L encoded supplied wallet_lookup now s h₁ in
        (encoded, supplied, payload, split, sealed, decoded, live)
  ]

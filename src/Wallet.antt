-- ===== src/Wallet.antt =====
-- The one-time challenges of wallet_auth.py, by which a wallet logs in or registers.
pub mod Address
pub mod Session
pub mod Authentic
pub mod Round
pub mod Calls
pub mod Challenges
pub mod Tests
use olivechain.Base.{
  ℕ, ◌+◌, String, ◌<>◌, Bool, not, ◌&&◌, Option, none, some, List, [], ◌∷◌, Dict, lookup, insert,
  erase, ◌==◌, filter, length, take, drop, leb, eqb, if◌then◌else◌, ◌||◌,
}
use olivechain.Crypto.{Crypto}
use olivechain.Json.Dump.{encode}
use olivechain.Effects.{Exec, pure, gets, reads, or_raise, raise_if, modify, ◌>>=◌, ◌>>◌}
use olivechain.Result.{ok, err}
use olivechain.Wallet.Address.{
  WalletLibrary, LoadedKey, p256, other, fail, validate_address, expected_address,
}

pub record Challenge : Type 0 where
  pub message : String
  pub purpose : String
  pub expires_at : ℕ

-- `_challenges`, by the address of the wallet.
abbrev pub Challenges : Type 0
Challenges = Dict Challenge

unfoldable pub purge : ℕ → Challenges → Challenges
purge now = filter (λ c. not (leb c.1.expires_at now))

-- `_challenges.pop(address, None)` after `_purge_challenges(now)`
pub take_challenge : String → ℕ → Exec Challenges (Option Challenge)
take_challenge address now s = (ok (lookup address (purge now s)), erase address (purge now s))

module _ (W : WalletLibrary) (C : Crypto) where
  unfoldable pub challenge_message : String → String → String → ℕ → String
  challenge_message purpose address nonce now =
      "OliveChain wallet "
      <> (if purpose == "register" then "registration" else "authentication")
      <> "\npurpose="
      <> purpose
      <> "\nwallet="
      <> address
      <> "\nnonce="
      <> nonce
      <> "\nissued_at="
      <> W.decimal_text now

  -- With `challenge_ttl_seconds`, at the time `now`, and with what token_urlsafe returns.
  unfoldable pub issue_challenge :
      ℕ → String → String → ℕ → String → Exec Challenges (String × Challenge)
  unfolding challenge_message
  issue_challenge ttl wallet_address purpose now nonce = do
    address ← reads (λ s. validate_address W C wallet_address)
    let purpose = W.lower (W.strip purpose)
    raise_if (not (purpose == "login" || purpose == "register"))
        (fail "invalid wallet challenge purpose")
    let challenge : Challenge = record {
      message = challenge_message purpose address nonce now;
      purpose = purpose;
      expires_at = now + ttl;
    }
    modify (λ s. insert address challenge (purge now s))
    pure (address, challenge)

  -- The signature as the verifier wants it.
  der_signature : List ℕ → List ℕ
  der_signature signature =
      if eqb (length signature) 64
      then W.encode_signature (take 32 signature) (drop 32 signature)
      else signature

  abbrev the_key : Option LoadedKey → Exec Challenges ℕ
  the_key none s = (err (fail "wallet public key cannot be decoded"), s)
  the_key (some other) s = (err (fail "wallet must use ECDSA P-256"), s)
  the_key (some (p256 key)) s = (ok key, s)

  pub check_signature : Challenge → String → String → Exec Challenges (Unit {0})
  unfolding der_signature
  check_signature challenge public_key signature = do
    der ← or_raise (W.base64_decode public_key) (fail "wallet public key cannot be decoded")
    key ← the_key (W.load_public_key der)
    raw ← or_raise (W.base64url_decode signature) (fail "wallet signature is not valid base64url")
    raise_if (not (W.ecdsa_verify key (der_signature raw) (encode challenge.message)))
        (fail "wallet signature is invalid")

  unfoldable pub verify_challenge :
      String → String → String → String → ℕ → Exec Challenges (Unit {0})
  unfolding take_challenge check_signature
  verify_challenge wallet_address public_key signature purpose now = do
    address ← reads (λ s. validate_address W C wallet_address)
    expected ← reads (λ s. expected_address W C public_key)
    raise_if (not (expected == address)) (fail "wallet address does not match public key")
    found ← take_challenge address now
    challenge ← or_raise found (fail "wallet challenge is missing or expired")
    raise_if (not (challenge.purpose == purpose)) (fail "wallet challenge purpose does not match")
    check_signature challenge public_key signature

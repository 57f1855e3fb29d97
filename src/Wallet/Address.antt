-- ===== src/Wallet/Address.antt =====
-- The addresses of wallets in wallet_auth.py, and what the module takes from its libraries.
use olivechain.Base.{
  ℕ, String, ◌<>◌, Bool, true, false, ◌&&◌, ◌||◌, Option, List, [], ◌∷◌, all, length, take, drop,
  leb, ltb, eqb, if◌then◌else◌,
}
use olivechain.Crypto.{Crypto}
use olivechain.Json.Dump.{codes}
use olivechain.Result.{
  Exception, Result, ok, err, wallet_auth_error, or_raise, raise_if, ◌>>=◌, ◌>>◌,
}

-- What `load_der_public_key` makes of bytes: a P-256 key, or a key of another kind.
pub data LoadedKey : Type 0 where
  p256 : ℕ → LoadedKey
  other : LoadedKey

-- What the interpreter and the `cryptography` package supply.
pub record WalletLibrary : Type 0 where
  -- `text.strip()`, `text.upper()`, `text.lower()` and `text[:n]`
  pub strip : String → String
  pub upper : String → String
  pub lower : String → String
  pub slice_to : ℕ → String → String
  -- `str(n)`
  pub decimal_text : ℕ → String
  pub base64_decode : String → Option (List ℕ)
  pub base64url_decode : String → Option (List ℕ)
  pub load_public_key : List ℕ → Option LoadedKey
  -- the DER form of the two halves of a signature of 64 bytes
  pub encode_signature : List ℕ → List ℕ → List ℕ
  pub ecdsa_verify : ℕ → List ℕ → List ℕ → Bool

abbrev pub fail : String → Exception
fail text = wallet_auth_error text []

is_same : List ℕ → List ℕ → Bool
is_same [] [] = true
is_same (b ∷ bs) (c ∷ cs) = eqb b c && is_same bs cs
is_same _ _ = false

-- `[A-F0-9]`
abbrev is_hex : ℕ → Bool
is_hex c = leb 48 c && leb c 57 || leb 65 c && leb c 70

-- `WALLET_RE.fullmatch(value)`
unfoldable pub is_address : String → Bool
unfolding is_same
is_address value =
    is_same (take 6 (codes value)) (codes "OLIVE-")
    && all is_hex (drop 6 (codes value))
    && eqb (length (codes value)) 30

module _ (W : WalletLibrary) (C : Crypto) where
  unfoldable pub validate_address : String → Result String
  validate_address address =
      let value = W.upper (W.strip address) in
      if is_address value then ok value else err (fail "invalid OliveChain wallet address")

  unfoldable pub expected_address : String → Result String
  expected_address key = do
    raw ← or_raise (W.base64_decode key) (fail "wallet public key is not valid base64")
    raise_if (ltb (length raw) 32) (fail "wallet public key is too short")
    ok ("OLIVE-" <> W.upper (W.slice_to 24 (C.sha256_hex raw)))

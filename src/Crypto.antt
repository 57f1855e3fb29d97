-- ===== src/Crypto.antt =====
-- crypto.py: SHA-256 of the standard library and the Ed25519 keys of the `cryptography` package,
-- as a parameter of the model. Private keys and public keys are their hexadecimal texts.
use olivechain.Base.{ℕ, String, ◌≡◌, Bool, true, List}

pub record Crypto : Type 0 where
  pub sha256_hex : List ℕ → String
  pub public_hex : String → String
  pub sign : String → List ℕ → String
  pub verify_signature : String → List ℕ → String → Bool

-- What Ed25519 documents: a signature by a key verifies under its public key.
pub record IsSound (C : Crypto) : Type 0 where
  pub verify-sign :
      (key : String) (message : List ℕ)
      → C.verify_signature (C.public_hex key) message (C.sign key message) ≡ true

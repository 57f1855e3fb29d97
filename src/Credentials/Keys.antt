-- ===== src/Credentials/Keys.antt =====
-- The `did:key` form of an Ed25519 key in credentials.py.
use olivechain.Base.{
  ℕ, String, ◌<>◌, Option, none, some, List, [], ◌∷◌, ◌++◌, eqb, if◌then◌else◌, ◌&&◌,
}
use olivechain.Base.Texts.{split_at, strip_prefix}
use olivechain.Credentials.Base58.{b58encode, b58decode}
use olivechain.Result.{Result, ok, err, value_error, or_raise, ◌>>=◌}
pub mod Round

-- `bytes.fromhex(text)` and `.hex()`
pub record HexLibrary : Type 0 where
  pub from_hex : String → Option (List ℕ)
  pub to_hex : List ℕ → String

-- `bytes.fromhex(text)`
abbrev pub hex_bytes : HexLibrary → String → Result (List ℕ)
hex_bytes H text = or_raise (H.from_hex text) (value_error "non-hexadecimal number found" [])

-- `_ED25519_MULTICODEC` before a raw key
abbrev pub multicodec : List ℕ → List ℕ
multicodec raw = 0xed ∷ 0x01 ∷ raw

-- `decoded[2:]`, where `decoded.startswith(_ED25519_MULTICODEC)`
unfoldable pub strip_multicodec : List ℕ → Option (List ℕ)
strip_multicodec (a ∷ b ∷ raw) = if eqb a 0xed && eqb b 0x01 then some raw else none
strip_multicodec _ = none

-- `text.split("#", 1)[0]`
unfoldable pub before_fragment : String → String
unfolding split_at
before_fragment did = elim (split_at 35 did) [ none ↦ did | some parts ↦ parts.0 ]

module _ (H : HexLibrary) where
  unfoldable pub did_key_ed25519 : String → Result String
  did_key_ed25519 public_hex =
      hex_bytes H public_hex >>= λ raw. ok ("did:key:z" <> b58encode (multicodec raw))

  unfoldable pub public_hex_from_did_key : String → Result String
  unfolding before_fragment strip_prefix strip_multicodec
  public_hex_from_did_key did = do
    encoded ←
        or_raise (strip_prefix "did:key:z" (before_fragment did))
          (value_error "unsupported verification method" [])
    decoded ← b58decode encoded
    raw ← or_raise (strip_multicodec decoded) (value_error "not an Ed25519 did:key" [])
    ok (H.to_hex raw)

-- ===== src/Credentials/Tests.antt =====
-- A passport of one batch, as a credential that is signed and verified.
use olivechain.Base.{
  String, ◌<>◌, true, false, ◌&&◌, some, none, [], ◌∷◌, Dict, lookup, contains, eqb, ◌==◌, ◌≡◌,
  refl, arith, if◌then◌else◌,
}
use olivechain.Base.Int.{pos}
use olivechain.Crypto.{Crypto, IsSound}
use olivechain.Json.{
  Value, boolean, int, str, arr, to_items, of_items, to_fields, of_fields, dict_value,
}
use olivechain.Json.Access.{get_or, truthy, to_int}
use olivechain.Result.{Result, ok, err}
use olivechain.World.{floats}
use olivechain.Credentials.Base58.{b58encode, b58decode}
use olivechain.Credentials.Base58.Round.{b58decode-b58encode}
use olivechain.Credentials.Digits.{digits_from}
use olivechain.Credentials.Keys.{HexLibrary, did_key_ed25519, public_hex_from_did_key}
use olivechain.Credentials.Keys.Round.{public_hex_from_did_key-did_key_ed25519}
use olivechain.Credentials.Passport.{CredentialLibrary, build_passport_credential, sign_credential}
use olivechain.Credentials.Verify.{checked, verify_passport_credential}
use olivechain.Credentials.Verify.Signed.{
  IsHex, verify_passport_credential-sign_credential,
  build_passport_credential-verify_passport_credential,
}

-- Two texts are hexadecimal: the one of the key and the one of its signatures.
abbrev hex : HexLibrary
hex = record {
  from_hex =
      λ s. if s == "ab" then some (0xab ∷ []) else if s == "cd" then some (0xcd ∷ []) else none;
  to_hex = λ bytes. elim bytes [ [] ↦ "" | b ∷ bs ↦ if eqb b 0xab then "ab" else "cd" ];
}

abbrev one_key : Crypto
one_key = record {
  sha256_hex = λ bytes. "";
  public_hex = λ key. "ab";
  sign = λ key message. "cd";
  verify_signature = λ public_key message signature. public_key == "ab" && signature == "cd";
}

one_key-IsSound : IsSound one_key
one_key-IsSound = record { verify-sign = λ key message. refl }

ab-IsHex : IsHex hex "ab"
ab-IsHex = record { bytes = 0xab ∷ []; reads = refl; back = refl; small = omega arith }

cd-IsHex : IsHex hex "cd"
cd-IsHex = record { bytes = 0xcd ∷ []; reads = refl; back = refl; small = omega arith }

abbrev library : CredentialLibrary
library = record {
  sha256 = λ bytes. bytes;
  utc = λ v. ok "2026-01-02T03:04:05Z";
  quote = λ s. s;
  rstrip_slash = λ s. s;
}

abbrev passport : Dict Value
passport =
    ("batch_id", str "B1")
    ∷ ("ledger_verified", boolean true)
    ∷ (
      "stages",
      arr (
          to_items (
            dict_value
              (("stage", str "harvest") ∷ ("by", str "farm") ∷ ("timestamp", int (pos 5)) ∷ [])
            ∷ [])),
    )
    ∷ []

b58decode-b58encode_example :
    b58decode (b58encode (0 ∷ 0 ∷ 7 ∷ 255 ∷ [])) ≡ ok (0 ∷ 0 ∷ 7 ∷ 255 ∷ [])
b58decode-b58encode_example =
    b58decode-b58encode (0 ∷ 0 ∷ 7 ∷ 255 ∷ [])
      (omega arith, (omega arith, (omega arith, omega arith)))

public_hex_from_did_key-did_key_ed25519_example :
    (did : String) × (did_key_ed25519 hex "ab" ≡ ok did)
    × (public_hex_from_did_key hex (did <> "#" <> "key") ≡ ok "ab")
public_hex_from_did_key-did_key_ed25519_example =
    public_hex_from_did_key-did_key_ed25519 hex "ab" "key" (0xab ∷ []) refl refl (omega arith)

-- What an outsider states under another's name.
abbrev forged : Dict Value
forged = ("@context", str "context") ∷ ("issuer", str "did:key:zAnother") ∷ []

forged_unproved : contains "proof" forged ≡ false
unfolding lookup
forged_unproved = refl

abbrev value_of : Result (Dict Value) → Dict Value
value_of (ok d) = d
value_of (err e) = []

abbrev did : String
did = "did:key:z" <> b58encode (0xed ∷ 0x01 ∷ 0xab ∷ [])

abbrev signed_forgery : Dict Value
signed_forgery =
    value_of (sign_credential library floats hex one_key "k" "now" (did <> "#" <> "key") forged)

made : did_key_ed25519 hex "ab" ≡ ok did
unfolding did_key_ed25519
made = refl

signs_forgery :
    sign_credential library floats hex one_key "k" "now" (did <> "#" <> "key") forged
    ≡ ok signed_forgery
unfolding sign_credential lookup
signs_forgery = refl

verify_passport_credential-sign_credential_example :
    verify_passport_credential library floats hex one_key signed_forgery
    ≡ ok (checked true (get_or (Value.null) "issuer" forged) (str (did <> "#" <> "key")))
verify_passport_credential-sign_credential_example =
    verify_passport_credential-sign_credential library floats hex one_key one_key-IsSound "k" did
      "key" "now" forged signed_forgery ab-IsHex (λ message. cd-IsHex) made forged_unproved
      signs_forgery

abbrev built : Dict Value
built = value_of (
    build_passport_credential library floats hex one_key passport "k" "head" (pos 3) "content" "id"
      "subject" "now" "from" "created")

builds :
    build_passport_credential library floats hex one_key passport "k" "head"
      (pos 3)
      "content"
      "id"
      "subject"
      "now"
      "from"
      "created"
    ≡ ok built
unfolding build_passport_credential lookup truthy b58encode digits_from to_int of_items to_items
    of_fields to_fields
builds = refl

build_passport_credential-verify_passport_credential_example :
    (did fragment : String) × (did_key_ed25519 hex "ab" ≡ ok did)
    × (verify_passport_credential library floats hex one_key built
        ≡ ok (checked true (str did) (str (did <> "#" <> fragment))))
build_passport_credential-verify_passport_credential_example =
    build_passport_credential-verify_passport_credential library floats hex one_key one_key-IsSound
      passport "k" "head" (pos 3) "content" "id" "subject" "now" "from" "created" built ab-IsHex
      (λ message. cd-IsHex) builds

-- ===== src/Credentials/Verify.antt =====
-- `verify_passport_credential` of credentials.py.
pub mod Signed
use olivechain.Base.{
  String, Bool, not, Option, none, some, List, [], ◌∷◌, Dict, update, erase, filter, ◌==◌,
  if◌then◌else◌,
}
use olivechain.Base.Texts.{strip_prefix}
use olivechain.Crypto.{Crypto}
use olivechain.Json.{
  Value, Floats, null, boolean, int, float, str, arr, obj, of_items, of_fields, Items, nil, cons,
}
use olivechain.Json.Access.{read_pairs, item, get_or}
use olivechain.Result.{
  Exception, Result, ok, err, key_error, type_error, value_error, attribute_error, ◌>>=◌,
}
use olivechain.Credentials.Base58.{b58decode}
use olivechain.Credentials.Keys.{HexLibrary, public_hex_from_did_key}
use olivechain.Credentials.Passport.{CredentialLibrary, hash_data}

-- Whether the signature verifies, with the issuer and the verification method as they stand in the
-- credential; or what was wrong with its form.
pub data Verdict : Type 0 where
  checked : Bool → Value → Value → Verdict
  rejected : Exception → Verdict

-- A dict of pairs. Where a key is no text, sorting the keys raises the same error later, as
-- "@context" is a key too.
unfoldable pub dict_of_pairs : List (Value × Value) → Result (Dict Value)
dict_of_pairs [] = ok []
dict_of_pairs ((str k, v) ∷ pairs) = dict_of_pairs pairs >>= λ d. ok (update ((k, v) ∷ []) d)
dict_of_pairs ((k, v) ∷ pairs) = err (type_error "'<' not supported between keys" [])

-- `dict(value)`
unfoldable pub dict_of : Value → Result (Dict Value)
unfolding read_pairs dict_of_pairs
dict_of (obj fs) = ok (of_fields fs)
dict_of v = read_pairs v >>= dict_of_pairs

-- A value whose methods of a text are called.
unfoldable pub as_text : Value → Result String
as_text (str s) = ok s
as_text _ = err (attribute_error "object has no such method" [])

-- The `except` clause.
unfoldable pub caught : Result Verdict → Result Verdict
caught (err (key_error t texts)) = ok (rejected (key_error t texts))
caught (err (value_error t texts)) = ok (rejected (value_error t texts))
caught (err (type_error t texts)) = ok (rejected (type_error t texts))
caught r = r

abbrev pub without_proof : Dict Value → Dict Value
without_proof vc = filter (λ e. not (e.0 == "proof")) vc

module _ (L : CredentialLibrary) (F : Floats) (H : HexLibrary) (C : Crypto) where
  -- With the proof, its value taken out, and the value behind the "z".
  unfoldable pub check_proof : Dict Value → Dict Value → Option String → Result Verdict
  unfolding as_text
  check_proof vc proof none = ok (rejected (value_error "unsupported multibase" []))
  check_proof vc proof (some encoded) = do
    signature ← b58decode encoded
    let proof_options = update (("@context", get_or null "@context" vc) ∷ []) proof
    method ← item "verificationMethod" proof
    vm ← as_text method
    public_hex ← public_hex_from_did_key H vm
    let valid =
        C.verify_signature public_hex (hash_data L F (without_proof vc) proof_options)
          (H.to_hex signature)
    ok (checked valid (get_or null "issuer" vc) method)

  unfoldable pub verify_passport_credential : Dict Value → Result Verdict
  unfolding dict_of as_text check_proof caught
  verify_passport_credential vc = caught (do
    stated ← item "proof" vc
    proof ← dict_of stated
    value ← item "proofValue" proof
    text ← as_text value
    check_proof vc (erase "proofValue" proof) (strip_prefix "z" text))

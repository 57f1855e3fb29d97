-- ===== src/Credentials/Passport.antt =====
-- `build_passport_credential` of credentials.py: a passport as a credential under a signature. The
-- texts of the present time are arguments.
use olivechain.Base.{
  ℕ, zero, suc, String, ◌<>◌, List, [], ◌∷◌, ◌++◌, Dict, insert, if◌then◌else◌, Option, none, some,
}
use olivechain.Base.Int.{ℤ, pos}
use olivechain.Base.Texts.{split_at}
use olivechain.Crypto.{Crypto}
use olivechain.Json.{Value, Floats, null, boolean, int, str, arr, to_items, dict_value}
use olivechain.Json.Access.{iterated, item, get_or, value_item, truthy, to_int}
use olivechain.Json.Dump.{plain_json}
use olivechain.Result.{Result, ok, index_error, or_raise, map_result, ◌>>=◌}
use olivechain.Credentials.Base58.{b58encode}
use olivechain.Credentials.Keys.{HexLibrary, hex_bytes, did_key_ed25519}
use olivechain.Portal.Rows.{row_get}

-- What is taken of hashlib, datetime and urllib: a digest; the moment of a value that is a
-- timestamp, in UTC, whole seconds and the form that ends in Z; a text quoted whole.
pub record CredentialLibrary : Type 0 where
  pub sha256 : List ℕ → List ℕ
  pub utc : Value → Result String
  pub quote : String → String
  pub rstrip_slash : String → String

-- `text[:n]`
unfoldable pub prefix : ℕ → String → String
prefix zero s = ""
prefix (suc n) String.[] = ""
prefix (suc n) (String.◌∷◌ c s) = String.◌∷◌ c (prefix n s)

-- `text.split(":", 2)[2]`
unfoldable pub behind_two_colons : String → Option String
unfolding split_at
behind_two_colons s = elim (split_at 58 s) [
  | none ↦ none
  | some first ↦ elim (split_at 58 first.1) [ none ↦ none | some second ↦ some second.1 ]
]

unfoldable pub unsigned_credential : String → String → String → Dict Value → Dict Value
unsigned_credential credential_id issuer_did valid_from subject =
    ("@context", arr (to_items (str "https://www.w3.org/ns/credentials/v2" ∷ [])))
    ∷ ("id", str credential_id)
    ∷ ("type", arr (to_items (str "VerifiableCredential" ∷ str "OliveOilPassportCredential" ∷ [])))
    ∷ ("issuer", str issuer_did)
    ∷ ("validFrom", str valid_from)
    ∷ ("credentialSubject", dict_value subject)
    ∷ []

-- `proof_options` without its context, which the proof does not repeat.
abbrev pub proof_fields : String → String → Dict Value
proof_fields created vm =
    ("type", str "DataIntegrityProof")
    ∷ ("cryptosuite", str "eddsa-jcs-2022")
    ∷ ("created", str created)
    ∷ ("verificationMethod", str vm)
    ∷ ("proofPurpose", str "assertionMethod")
    ∷ []

unfoldable pub gs1_digital_link : CredentialLibrary → String → String → String → String
gs1_digital_link L base_url gtin batch =
    L.rstrip_slash base_url <> "/01/" <> gtin <> "/10/" <> L.quote batch

module _ (L : CredentialLibrary) (F : Floats) where
  unfoldable pub iso : String → Value → Result String
  iso now ts = if truthy F ts then L.utc ts else ok now

  unfoldable pub stage_row : String → Value → Result Value
  unfolding iso prefix
  stage_row now s = do
    stage ← value_item "stage" s
    by ← value_item "by" s
    timestamp ← value_item "timestamp" s
    date ← iso now timestamp
    ok (dict_value (("stage", stage) ∷ ("by", by) ∷ ("date", str (prefix 10 date)) ∷ []))

  unfoldable pub recovery_row : Value → Result Value
  recovery_row c = do
    residue_id ← row_get null "residue_id" c
    pct ← row_get null "recovery_pct" c
    ok_flag ← row_get null "mass_balance_ok" c
    ok (
        dict_value (
          ("residueId", residue_id)
          ∷ ("recoveryPct", str (F.to_text pct))
          ∷ ("massBalanceOk", boolean (truthy F ok_flag))
          ∷ []))

  unfoldable pub reward_row : Value → Result Value
  reward_row r = do
    recipient ← value_item "recipient" r
    rule ← value_item "for" r
    amount ← value_item "amount" r
    points ← to_int F amount
    ok (dict_value (("recipient", recipient) ∷ ("rule", rule) ∷ ("points", int points) ∷ []))

  -- A list of the passport, which may lack it, row by row.
  unfoldable pub rows_of : String → (Value → Result Value) → Dict Value → Result Value
  unfolding iterated
  rows_of key row passport = iterated (get_or (arr (to_items [])) key passport) >>= λ vs.
      map_result row vs >>= λ rows. ok (arr (to_items rows))

  unfoldable pub subject_of :
      Dict Value → String → ℤ → String → String → String → Result (Dict Value)
  unfolding rows_of stage_row recovery_row reward_row
  subject_of passport head_hash height content_sha256 subject_id now = do
    batch_id ← item "batch_id" passport
    verified ← item "ledger_verified" passport
    scans ← to_int F (get_or (int (pos 0)) "consumer_scans" passport)
    stages ← rows_of "stages" (stage_row now) passport
    recovery ← rows_of "circular" recovery_row passport
    rewards ← rows_of "rewards" reward_row passport
    ok (
        ("id", str subject_id)
        ∷ ("type", str "OliveOilBatch")
        ∷ ("batchId", batch_id)
        ∷ ("ledgerVerified", boolean (truthy F verified))
        ∷ ("ledgerHeight", int height)
        ∷ ("ledgerHeadHash", str head_hash)
        ∷ ("consumerScans", int scans)
        ∷ ("passportContentSha256", str content_sha256)
        ∷ ("stages", stages)
        ∷ ("recovery", recovery)
        ∷ ("rewards", rewards)
        ∷ [])

  -- `_hash_data`
  unfoldable pub hash_data : Dict Value → Dict Value → List ℕ
  hash_data credential proof_options =
      L.sha256 (plain_json F (dict_value proof_options))
      ++ L.sha256 (plain_json F (dict_value credential))

  module _ (H : HexLibrary) (C : Crypto) where
    -- The credential with its proof: what build_passport_credential does once the credential stands.
    unfoldable pub sign_credential : String → String → String → Dict Value → Result (Dict Value)
    unfolding hash_data
    sign_credential key created vm credential = do
      context ← item "@context" credential
      let proof_options = ("@context", context) ∷ proof_fields created vm
      raw ← hex_bytes H (C.sign key (hash_data credential proof_options))
      let proof = insert "proofValue" (str ("z" <> b58encode raw)) (proof_fields created vm)
      ok (insert "proof" (dict_value proof) credential)

    -- With the texts of the present time for the stages without one, for `validFrom` and `created`.
    unfoldable pub build_passport_credential :
        Dict Value
        → String
        → String
        → ℤ
        → String
        → String
        → String
        → String
        → String
        → String
        → Result (Dict Value)
    unfolding did_key_ed25519 behind_two_colons subject_of unsigned_credential sign_credential
    build_passport_credential passport key head_hash height content_sha256 credential_id subject_id
          now valid_from created =
        do
          issuer_did ← did_key_ed25519 H (C.public_hex key)
          method ←
              or_raise (behind_two_colons issuer_did) (index_error "list index out of range" [])
          subject ← subject_of passport head_hash height content_sha256 subject_id now
          sign_credential key created (issuer_did <> "#" <> method)
              (unsigned_credential credential_id issuer_did valid_from subject)

-- ===== src/Credentials/Verify/Signed.antt =====
-- What is signed verifies.
use olivechain.Base.{
  ℕ, String, ◌<>◌, true, false, none, some, List, [], ◌∷◌, Dict, lookup, insert, erase, update,
  contains, ◌==◌, ◌≡◌, refl, sym, ap, ◌∙◌, lookup-insert, Option-cases, inl, inr, if◌then◌else◌,
  arith,
}
use olivechain.Base.Int.{ℤ}
use olivechain.Base.Texts.{strip_prefix, strip_prefix-append}
use olivechain.Crypto.{Crypto, IsSound}
use olivechain.Json.{Value, Floats, null, str, dict_value, to_fields, of_fields}
use olivechain.Json.Access.{item, get_or}
use olivechain.Result.{
  ok, or_raise, key_error, index_error, value_error, ◌>>=◌, bind-ok, ok-injective,
}
use olivechain.Credentials.Base58.{b58encode}
use olivechain.Credentials.Base58.Round.{b58decode-b58encode}
use olivechain.Credentials.Digits.{AreDigits}
use olivechain.Credentials.Keys.{HexLibrary, hex_bytes, did_key_ed25519, public_hex_from_did_key}
use olivechain.Credentials.Keys.Round.{public_hex_from_did_key-did_key_ed25519}
use olivechain.Credentials.Passport.{
  CredentialLibrary, hash_data, proof_fields, sign_credential, build_passport_credential,
  unsigned_credential, subject_of, behind_two_colons,
}
use olivechain.Credentials.Verify.{
  checked, without_proof, dict_of, as_text, caught, check_proof, verify_passport_credential,
}

-- A text that `bytes.fromhex` reads, and that `.hex()` writes again.
pub record IsHex (H : HexLibrary) (text : String) : Type 0 where
  pub bytes : List ℕ
  pub reads : H.from_hex text ≡ some bytes
  pub back : H.to_hex bytes ≡ text
  pub small : AreDigits 256 bytes

without_proof-insert :
    (v : Value) (d : Dict Value)
    → contains "proof" d ≡ false
    → without_proof (insert "proof" v d) ≡ d
unfolding lookup insert
without_proof-insert v [] h = refl
without_proof-insert v ((k, w) ∷ d) h = ground (arith, without_proof-insert v d)

get_or-item :
    (key : String) (d : Dict Value) (v : Value) → item key d ≡ ok v → get_or null key d ≡ v
get_or-item key d v h = elim (Option-cases (lookup key d)) [
  | inl missing ↦ absurd (cc (sym (ap (λ o. or_raise o (key_error "{}" (key ∷ []))) missing) ∙ h))
  | inr (w, found) ↦
      ap (λ o. elim o as (λ o. Value) [ none ↦ null | some v ↦ v ]) found
      ∙ ok-injective (sym (ap (λ o. or_raise o (key_error "{}" (key ∷ []))) found) ∙ h)
]

get_or-insert :
    (key : String) (v : Value) (d : Dict Value)
    → "proof" == key ≡ false
    → get_or null key (insert "proof" v d) ≡ get_or null key d
get_or-insert key v d other =
    ap (λ o. elim o as (λ o. Value) [ none ↦ null | some v ↦ v ])
      (lookup-insert "proof" key v d ∙ ap (λ b. if b then some v else lookup key d) other)

-- The proof as it stands in the credential.
abbrev proof_with : String → String → List ℕ → Dict Value
proof_with created vm raw =
    insert "proofValue" (str ("z" <> b58encode raw)) (proof_fields created vm)

module _ (L : CredentialLibrary) (F : Floats) (H : HexLibrary) (C : Crypto) where
  reads_proof :
      (created vm : String) (raw : List ℕ) (vc : Dict Value)
      → lookup "proof" vc ≡ some (dict_value (proof_with created vm raw))
      → verify_passport_credential L F H C vc
        ≡ caught (check_proof L F H C vc (proof_fields created vm) (some (b58encode raw)))
  unfolding verify_passport_credential dict_of as_text insert lookup erase to_fields of_fields
  reads_proof created vm raw vc h =
      ap
        (λ o. caught (
          or_raise o (key_error "{}" ("proof" ∷ [])) >>= λ stated. dict_of stated >>= λ proof.
          item "proofValue" proof >>= λ value. as_text value >>= λ text.
          check_proof L F H C vc (erase "proofValue" proof) (strip_prefix "z" text)))
        h
      ∙ ap (λ o. caught (check_proof L F H C vc (proof_fields created vm) o))
          (strip_prefix-append "z" (b58encode raw))

  checks_proof :
      (created vm public_hex : String) (raw : List ℕ) (vc : Dict Value)
      → AreDigits 256 raw
      → public_hex_from_did_key H vm ≡ ok public_hex
      → check_proof L F H C vc (proof_fields created vm) (some (b58encode raw))
        ≡ ok (
            checked
              (C.verify_signature public_hex
                (hash_data L F
                  (without_proof vc)
                  (("@context", get_or null "@context" vc) ∷ proof_fields created vm))
                (H.to_hex raw))
              (get_or null "issuer" vc)
              (str vm))
  unfolding check_proof as_text update insert lookup
  checks_proof created vm public_hex raw vc small made =
      rw (b58decode-b58encode raw small, made) refl

  -- What sign_credential returns.
  signs :
      (key created vm : String) (credential vc : Dict Value)
      → ((message : List ℕ) → IsHex H (C.sign key message))
      → sign_credential L F H C key created vm credential ≡ ok vc
      → (raw : List ℕ) × AreDigits 256 raw
        × (vc ≡ insert "proof" (dict_value (proof_with created vm raw)) credential)
        × (H.to_hex raw
            ≡ C.sign key (
                hash_data L F credential
                  (("@context", get_or null "@context" credential) ∷ proof_fields created vm)))
  unfolding sign_credential
  signs key created vm credential vc signed h =
      let message : Value → List ℕ =
        λ context. hash_data L F credential (("@context", context) ∷ proof_fields created vm) in
      let written : List ℕ → Dict Value =
        λ raw. insert "proof" (dict_value (proof_with created vm raw)) credential in
      let (context, has, h') =
        bind-ok (item "@context" credential)
          (λ context. hex_bytes H (C.sign key (message context)) >>= λ raw. ok (written raw)) vc
          h in
      let hex = signed (message context) in
      (
        hex.bytes,
        hex.small,
        ok-injective (
            sym h'
            ∙ ap
                (λ o. or_raise o (value_error "non-hexadecimal number found" []) >>= λ raw.
                  ok (written raw))
                hex.reads),
        hex.back
            ∙ ap (λ c. C.sign key (message c))
                (sym (get_or-item "@context" credential context has)),
      )

  module _ (sound : IsSound C) where
    -- A credential that is signed with a key verifies, under the did:key of that key with any
    -- fragment, and the issuer that is reported is the one that stands in the credential, whatever
    -- it is; if the texts of the public key and of the signatures are hexadecimal.
    pub verify_passport_credential-sign_credential :
        (key did fragment created : String) (credential vc : Dict Value)
        → IsHex H (C.public_hex key)
        → ((message : List ℕ) → IsHex H (C.sign key message))
        → did_key_ed25519 H (C.public_hex key) ≡ ok did
        → contains "proof" credential ≡ false
        → sign_credential L F H C key created (did <> "#" <> fragment) credential ≡ ok vc
        → verify_passport_credential L F H C vc
          ≡ ok (checked true (get_or null "issuer" credential) (str (did <> "#" <> fragment)))
    unfolding caught
    verify_passport_credential-sign_credential key did fragment created credential vc public signed
          made unproved h =
        let vm : String = did <> "#" <> fragment in
        let (raw, small, is, back) = signs key created vm credential vc signed h in
        let stated = dict_value (proof_with created vm raw) in
        let (did', made', read) =
          public_hex_from_did_key-did_key_ed25519 H (C.public_hex key) fragment public.bytes
            public.reads public.back public.small in
        let same : did' ≡ did = ok-injective (sym made' ∙ made) in
        let held : lookup "proof" vc ≡ some stated =
          ap (lookup "proof") is ∙ lookup-insert "proof" "proof" stated credential in
        let plain = ap without_proof is ∙ without_proof-insert stated credential unproved in
        let context =
          ap (get_or null "@context") is ∙ get_or-insert "@context" stated credential refl in
        let issuer = ap (get_or null "issuer") is ∙ get_or-insert "issuer" stated credential refl in
        reads_proof created vm raw vc held
        ∙ ap caught (
            checks_proof created vm (C.public_hex key) raw vc small
              (ap (λ d. public_hex_from_did_key H (d <> "#" <> fragment)) (sym same) ∙ read))
        ∙ rw
            (
              plain,
              context,
              issuer,
              back,
              sound.verify-sign key (
                  hash_data L F credential
                    (("@context", get_or null "@context" credential) ∷ proof_fields created vm)),
            )
            refl

    -- A passport's credential that has been built verifies, with the did:key of its signer as the
    -- issuer and, before the fragment, as the verification method; if the texts of the public key
    -- and of the signatures are hexadecimal.
    pub build_passport_credential-verify_passport_credential :
        (passport : Dict Value) (key head_hash : String) (height : ℤ)
        (content_sha256 credential_id subject_id now valid_from created : String) (vc : Dict Value)
        → IsHex H (C.public_hex key)
        → ((message : List ℕ) → IsHex H (C.sign key message))
        → build_passport_credential L F H C passport key head_hash height content_sha256
            credential_id subject_id now valid_from created
          ≡ ok vc
        → (did fragment : String) × (did_key_ed25519 H (C.public_hex key) ≡ ok did)
          × (verify_passport_credential L F H C vc
              ≡ ok (checked true (str did) (str (did <> "#" <> fragment))))
    unfolding build_passport_credential unsigned_credential lookup
    build_passport_credential-verify_passport_credential passport key head_hash height
          content_sha256 credential_id subject_id now valid_from created vc public signed h =
        let (did, made, h₁) = bind-ok (did_key_ed25519 H (C.public_hex key)) _ vc h in
        let (fragment, behind, h₂) =
          bind-ok (or_raise (behind_two_colons did) (index_error "list index out of range" [])) _ vc
            h₁ in
        let (subject, of, h₃) =
          bind-ok (subject_of L F passport head_hash height content_sha256 subject_id now) _ vc
            h₂ in
        (
          did,
          fragment,
          made,
          verify_passport_credential-sign_credential key did fragment created
              (unsigned_credential credential_id did valid_from subject) vc public signed made refl
              h₃,
        )

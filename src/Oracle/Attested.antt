-- ===== src/Oracle/Attested.antt =====
-- What the oracle attests.
use mathlib.Core.Path.{subst}
use olivechain.Base.{
  Option, none, ℕ, ◌+◌, String, Bool, true, false, not, ◌&&◌, ◌||◌, some, none, [], Dict, lookup,
  ◌==◌, ◌≡◌, refl, ap, ◌∙◌, if◌then◌else◌, arith, eq_refl,
}
use olivechain.Base.Int.{pos, negsuc}
use olivechain.Crypto.{Crypto, IsSound}
use olivechain.Json.{Value, Floats, null, int, str, dict_value, to_fields, of_fields}
use olivechain.Json.Access.{is_text, get_or}
use olivechain.Json.Dump.{plain_json, canonical_json}
use olivechain.Json.Sorted.{of_fields-to_fields}
use olivechain.Portal.Rows.{row_get}
use olivechain.Result.{
  Result, ok, Exception, raise_if, or_raise, ◌>>◌, oracle_error, bind-ok, ok-injective,
}
use olivechain.Oracle.{
  weather_url, air_quality_url, params, raw_record_of, OracleLibrary, Oracle, Request, Fetched,
  attestation, check_request, ask, attest, body_of, fetch_current, check_attested,
  verify_attestation, observed_at, current_values, weather_names, air_names, is_missing,
}

-- What comes after a guard has run where the guard has let it.
guarded :
    (b : Bool) (e : Exception) (k : Result (Unit {0}))
    → (raise_if b e >> k) ≡ ok tt
    → (b ≡ false) × (k ≡ ok tt)
guarded true e k h = cc
guarded false e k h = (refl, h)

or_raise-ok : (o : Option Value) (e : Exception) (v : Value) → or_raise o e ≡ ok v → o ≡ some v
or_raise-ok none e v h = cc
or_raise-ok (some w) e v h = ap some (ok-injective h)

same_if : (b : Bool) (e : Exception) → (raise_if b e >> ok tt) ≡ raise_if b e
same_if true e = refl
same_if false e = refl

module _ (O : OracleLibrary) (F : Floats) where
  -- A request that is not refused.
  pub record IsAdmitted (r : Request) : Type 0 where
    pub south : F.le (F.of_int (negsuc 89)) r.latitude ≡ true
    pub north : F.le r.latitude (F.of_int (pos 90)) ≡ true
    pub west : F.le (F.of_int (negsuc 179)) r.longitude ≡ true
    pub east : F.le r.longitude (F.of_int (pos 180)) ≡ true
    pub typed : (O.strip r.event_type == "") ≡ false
    pub named : (O.strip r.subject_id == "") ≡ false

  check_request-IsAdmitted : (r : Request) → check_request O F r ≡ ok tt → IsAdmitted r
  unfolding check_request
  check_request-IsAdmitted r h =
      let lat : Bool =
        F.le (F.of_int (negsuc 89)) r.latitude && F.le r.latitude (F.of_int (pos 90)) in
      let long : Bool =
        F.le (F.of_int (negsuc 179)) r.longitude && F.le r.longitude (F.of_int (pos 180)) in
      let blank : Bool = O.strip r.event_type == "" || O.strip r.subject_id == "" in
      let (in_lat, h₁) =
        guarded (not lat) (oracle_error "latitude must be between -90 and 90" []) _ h in
      let (in_long, h₂) =
        guarded (not long) (oracle_error "longitude must be between -180 and 180" []) _ h₁ in
      let (words, h₃) =
        guarded blank (oracle_error "event_type and subject_id are required" []) (ok tt)
          (same_if blank (oracle_error "event_type and subject_id are required" []) ∙ h₂) in
      record {
        south = ground arith;
        north = ground arith;
        west = ground arith;
        east = ground arith;
        typed = ground arith;
        named = ground arith;
      }

  module _ (C : Crypto) where
    -- The parts of an attestation that tie it to the request, to the oracle and to the raw answers.
    -- The raw record holds what the provider has answered to the request, and at what time.
    pub record IsRawRecord (r : Request) (fetched_at : ℕ) (raw : Dict Value) : Type 0 where
      pub weather : Value
      pub air : Value
      pub weather_answer : O.http_get weather_url (params r weather_names) ≡ some weather
      pub air_answer : O.http_get air_quality_url (params r air_names) ≡ some air
      pub weather_response : lookup "weather_response" raw ≡ some weather
      pub air_quality_response : lookup "air_quality_response" raw ≡ some air
      pub time : lookup "fetched_at" raw ≡ some (int (pos fetched_at))

    pub record IsAttested (o : Oracle) (r : Request) (fetched_at : ℕ) (f : Fetched) : Type 0 where
      pub event_type : lookup "event_type" f.body ≡ some (str r.event_type)
      pub subject_id : lookup "subject_id" f.body ≡ some (str r.subject_id)
      pub expires_at :
          lookup "expires_at" f.body ≡ some (int (pos (fetched_at + o.freshness_seconds)))
      pub latitude : lookup "latitude" f.body ≡ some (str (O.fixed6 r.latitude))
      pub longitude : lookup "longitude" f.body ≡ some (str (O.fixed6 r.longitude))
      pub raw : IsRawRecord r fetched_at f.raw_record
      pub raw_bytes : f.raw_bytes ≡ canonical_json F (dict_value f.raw_record)
      pub raw_sha256 : lookup "raw_sha256" f.body ≡ some (str (C.sha256_hex f.raw_bytes))
      pub public_key : lookup "public_key" f.body ≡ some (str (C.public_hex o.signer))
      pub signed : f.signature ≡ C.sign o.signer (plain_json F (dict_value f.body))

    attest-IsAttested :
        (o : Oracle) (r : Request) (fetched_at : ℕ) (answers : Value × Value) (f : Fetched)
        → O.http_get weather_url (params r weather_names) ≡ some answers.0
        → O.http_get air_quality_url (params r air_names) ≡ some answers.1
        → attest O F C o r fetched_at answers ≡ ok f
        → IsAttested o r fetched_at f
    unfolding attest body_of raw_record_of lookup
    attest-IsAttested o r fetched_at answers f heard heard' h =
        let (observed, ran₁, h₁) = bind-ok (observed_at O F answers.0) _ f h in
        let (weather, ran₂, h₂) = bind-ok (current_values O F answers.0 weather_names) _ f h₁ in
        let (air, ran₃, h₃) = bind-ok (current_values O F answers.1 air_names) _ f h₂ in
        let (done, ran₄, h₄) =
          bind-ok
            (raise_if (is_missing (lookup "temperature_2m" weather) || observed == "")
              (oracle_error "provider response did not include current weather" []))
            _ f h₃ in
        subst (IsAttested o r fetched_at) (ok-injective h₄) (record {
          event_type = refl;
          subject_id = refl;
          expires_at = refl;
          latitude = refl;
          longitude = refl;
          raw = record {
            weather = answers.0;
            air = answers.1;
            weather_answer = heard;
            air_answer = heard';
            weather_response = refl;
            air_quality_response = refl;
            time = refl;
          };
          raw_bytes = refl;
          raw_sha256 = refl;
          public_key = refl;
          signed = refl;
        })

    ask-ok :
        (r : Request) (answers : Value × Value)
        → ask O F r ≡ ok answers
        → (O.http_get weather_url (params r weather_names) ≡ some answers.0)
          × (O.http_get air_quality_url (params r air_names) ≡ some answers.1)
    unfolding ask
    ask-ok r answers h =
        let (weather, first, h₁) =
          bind-ok
            (or_raise (O.http_get weather_url (params r weather_names))
              (oracle_error "external data provider unavailable" []))
            _ answers h in
        let (air, second, h₂) =
          bind-ok
            (or_raise (O.http_get air_quality_url (params r air_names))
              (oracle_error "external data provider unavailable" []))
            _ answers h₁ in
        let is = ok-injective h₂ in
        (
          or_raise-ok _ _ weather first ∙ ap (λ a. some a.0) is,
          or_raise-ok _ _ air second ∙ ap (λ a. some a.1) is,
        )

    checks_signed :
        (o : Oracle) (body : Dict Value) (signature : String)
        → lookup "public_key" body ≡ some (str (C.public_hex o.signer))
        → check_attested O F C o (dict_value body) (str signature)
          ≡ ok (
              C.verify_signature (C.public_hex o.signer) (plain_json F (dict_value body)) signature)
    unfolding check_attested row_get
    checks_signed o body signature h =
        let judged : Bool → Result Bool = λ own.
          if own
          then ok (
              C.verify_signature (C.public_hex o.signer) (plain_json F (dict_value body)) signature)
          else ok false in
        ap (λ d. judged (is_text (C.public_hex o.signer) (get_or null "public_key" d)))
          (of_fields-to_fields body)
        ∙ ap
            (λ found. judged (
              is_text (C.public_hex o.signer)
                (elim found as (λ v. Value) [ none ↦ null | some v ↦ v ])))
            h
        ∙ ap judged (eq_refl (C.public_hex o.signer))

    opened :
        (o : Oracle) (f : Fetched)
        → verify_attestation O F C o (attestation f)
          ≡ check_attested O F C o (dict_value f.body) (str f.signature)
    unfolding verify_attestation attestation lookup of_fields to_fields
    opened o f = refl

    -- Where fetch_current returns, the coordinates were within their bounds and the event's type and
    -- subject not blank; the raw record holds what the provider answered to the request, the raw
    -- bytes are its canonical JSON, and the body has their hash; the body names the event and the
    -- coordinates, expires when the freshness after the time of the call is over, and is signed by
    -- the oracle; and verify_attestation takes the attestation.
    pub fetch_current-IsAttested :
        (sound : IsSound C) (o : Oracle) (r : Request) (fetched_at : ℕ) (f : Fetched)
        → fetch_current O F C o r fetched_at ≡ ok f
        → IsAdmitted r
          × IsAttested o r fetched_at f
          × (verify_attestation O F C o (attestation f) ≡ ok true)
    unfolding fetch_current
    fetch_current-IsAttested sound o r fetched_at f h =
        let (done, admitted, h₁) = bind-ok (check_request O F r) _ f h in
        let (answers, asked, h₂) = bind-ok (ask O F r) _ f h₁ in
        let (heard, heard') = ask-ok r answers asked in
        let a = attest-IsAttested o r fetched_at answers f heard heard' h₂ in
        (
          check_request-IsAdmitted r admitted,
          a,
          opened o f
              ∙ checks_signed o f.body f.signature a.public_key
              ∙ ap
                  (λ s. ok (
                    C.verify_signature (C.public_hex o.signer) (plain_json F (dict_value f.body))
                      s))
                  a.signed
              ∙ ap ok (sound.verify-sign o.signer (plain_json F (dict_value f.body))),
        )

-- ===== src/Oracle.antt =====
-- oracle.py: the weather that a provider reports, as an attestation under the oracle's signature.
pub mod Attested
pub mod Tests
use olivechain.Base.{
  ℕ, ◌+◌, String, ◌<>◌, Bool, true, false, not, ◌&&◌, ◌||◌, Option, none, some, List, [], ◌∷◌, ◌++◌,
  Dict, lookup, insert, ◌==◌, if◌then◌else◌,
}
use olivechain.Base.Int.{pos, negsuc}
use olivechain.Crypto.{Crypto}
use olivechain.Json.{
  Value, Float, Floats, null, boolean, int, float, str, obj, arr, end, dict_value,
}
use olivechain.Json.Access.{value_item, truthy, is_text, text_in_value}
use olivechain.Json.Dump.{canonical_json, plain_json}
use olivechain.Portal.Rows.{row_get}
use olivechain.Result.{
  Result, ok, err, key_error, type_error, oracle_error, raise_if, or_raise, ◌>>=◌, ◌>>◌,
}

-- What the oracle takes of Python and of the provider: `text.strip()`, `format(x, ".12g")`,
-- `format(x, ".6f")`, `format(x, ".1f")`, and the JSON that a GET of an URL with parameters answers,
-- where it does with one.
pub record OracleLibrary : Type 0 where
  pub strip : String → String
  pub general : Float → String
  pub fixed6 : Float → String
  pub fixed1 : Float → String
  pub http_get : String → Dict Value → Option Value

pub record Oracle : Type 0 where
  pub oracle_id : String
  pub freshness_seconds : ℕ
  -- the private key
  pub signer : String

-- Where and for which event the conditions are asked for.
pub record Request : Type 0 where
  pub latitude : Float
  pub longitude : Float
  pub accuracy_m : Option Float
  pub event_type : String
  pub subject_id : String

pub record Fetched : Type 0 where
  pub body : Dict Value
  pub signature : String
  pub raw_record : Dict Value
  pub raw_bytes : List ℕ

abbrev pub weather_url : String
weather_url = "https://api.open-meteo.com/v1/forecast"

abbrev pub air_quality_url : String
air_quality_url = "https://air-quality-api.open-meteo.com/v1/air-quality"

abbrev weather_names : List String
weather_names =
    "temperature_2m" ∷ "relative_humidity_2m" ∷ "apparent_temperature" ∷ "precipitation"
    ∷ "weather_code" ∷ "wind_speed_10m" ∷ "wind_direction_10m" ∷ []

abbrev air_names : List String
air_names =
    "pm10" ∷ "pm2_5" ∷ "european_aqi" ∷ "carbon_monoxide" ∷ "nitrogen_dioxide" ∷ "ozone" ∷ []

-- `",".join(names)`
comma_list : List String → String
comma_list [] = ""
comma_list (s ∷ []) = s
comma_list (s ∷ t ∷ rest) = s <> "," <> comma_list (t ∷ rest)

unfoldable pub params : Request → List String → Dict Value
unfolding comma_list
params r names =
    ("latitude", float r.latitude)
    ∷ ("longitude", float r.longitude)
    ∷ ("current", str (comma_list names))
    ∷ ("timezone", str "auto")
    ∷ []

abbrev is_missing : Option Value → Bool
is_missing none = true
is_missing (some v) = is_text "" v

unfoldable pub attestation : Fetched → Value
attestation f = dict_value (("body", dict_value f.body) ∷ ("signature", str f.signature) ∷ [])

module _ (O : OracleLibrary) (F : Floats) where
  -- `_string_value`
  unfoldable pub string_value : Value → String
  string_value null = ""
  string_value (boolean true) = "true"
  string_value (boolean false) = "false"
  string_value (float x) = O.general x
  string_value v = F.to_text v

  -- `value or default`
  unfoldable pub or_else : Value → Value → Value
  or_else default v = if truthy F v then v else default

  unfoldable pub values_from : Value → Value → List String → Dict Value → Result (Dict Value)
  unfolding string_value row_get text_in_value
  values_from current units [] result = ok result
  values_from current units (name ∷ names) result = do
    named ← text_in_value F name current
    (if named
        then (do
          v ← row_get null name current
          let with_value = insert name (str (string_value v)) result
          in_units ← text_in_value F name units
          (if in_units
              then (row_get null name units >>= λ u.
                  values_from current units names
                    (insert (name <> "_unit") (str (string_value u)) with_value))
              else values_from current units names with_value))
        else values_from current units names result)

  -- `_current_values`
  unfoldable pub current_values : Value → List String → Result (Dict Value)
  unfolding values_from or_else row_get
  current_values response names = do
    current ← row_get null "current" response
    units ← row_get null "current_units" response
    values_from (or_else (obj end) current) (or_else (obj end) units) names []

  -- The arguments that are refused.
  unfoldable pub check_request : Request → Result (Unit {0})
  check_request r = do
    raise_if (not (F.le (F.of_int (negsuc 89)) r.latitude && F.le r.latitude (F.of_int (pos 90))))
        (oracle_error "latitude must be between -90 and 90" [])
    raise_if
        (not (F.le (F.of_int (negsuc 179)) r.longitude && F.le r.longitude (F.of_int (pos 180))))
        (oracle_error "longitude must be between -180 and 180" [])
    raise_if (O.strip r.event_type == "" || O.strip r.subject_id == "")
        (oracle_error "event_type and subject_id are required" [])

  -- Both answers of the provider, the second asked for after the first has come.
  unfoldable pub ask : Request → Result (Value × Value)
  unfolding params
  ask r = do
    weather ←
        or_raise (O.http_get weather_url (params r weather_names))
          (oracle_error "external data provider unavailable" [])
    air ←
        or_raise (O.http_get air_quality_url (params r air_names))
          (oracle_error "external data provider unavailable" [])
    ok (weather, air)

  -- `str((weather_raw.get("current") or {}).get("time") or "")`
  unfoldable pub observed_at : Value → Result String
  unfolding or_else row_get
  observed_at weather = do
    current ← row_get null "current" weather
    time ← row_get null "time" (or_else (obj end) current)
    ok (F.to_text (or_else (str "") time))

  abbrev accuracy_text : Option Float → String
  accuracy_text none = ""
  accuracy_text (some a) = O.fixed1 (if F.lt F.zero a then a else F.zero)

  unfoldable pub raw_record_of : Request → Value × Value → ℕ → Dict Value
  unfolding params
  raw_record_of r (weather, air) fetched_at =
      ("provider", str "open-meteo")
      ∷ (
        "weather_request",
        dict_value
            (("url", str weather_url) ∷ ("params", dict_value (params r weather_names)) ∷ []),
      )
      ∷ (
        "air_quality_request",
        dict_value
            (("url", str air_quality_url) ∷ ("params", dict_value (params r air_names)) ∷ []),
      )
      ∷ ("weather_response", weather)
      ∷ ("air_quality_response", air)
      ∷ ("fetched_at", int (pos fetched_at))
      ∷ []

  module _ (C : Crypto) where
    unfoldable pub body_of :
        Oracle → Request → ℕ → String → Dict Value → Dict Value → String → Dict Value
    body_of o r fetched_at observed weather air raw_sha256 =
        ("type", str "olivechain-external-data-attestation")
        ∷ ("version", int (pos 1))
        ∷ ("oracle_id", str o.oracle_id)
        ∷ ("provider", str "open-meteo")
        ∷ ("event_type", str r.event_type)
        ∷ ("subject_id", str r.subject_id)
        ∷ ("latitude", str (O.fixed6 r.latitude))
        ∷ ("longitude", str (O.fixed6 r.longitude))
        ∷ ("location_accuracy_m", str (accuracy_text r.accuracy_m))
        ∷ ("fetched_at", int (pos fetched_at))
        ∷ ("observed_at", str observed)
        ∷ ("expires_at", int (pos (fetched_at + o.freshness_seconds)))
        ∷ ("weather", dict_value weather)
        ∷ ("air_quality", dict_value air)
        ∷ ("raw_sha256", str raw_sha256)
        ∷ ("public_key", str (C.public_hex o.signer))
        ∷ []

    -- What is made of the answers, at the time.
    unfoldable pub attest : Oracle → Request → ℕ → Value × Value → Result Fetched
    unfolding current_values observed_at raw_record_of body_of
    attest o r fetched_at answers = do
      observed ← observed_at answers.0
      weather ← current_values answers.0 weather_names
      air ← current_values answers.1 air_names
      raise_if (is_missing (lookup "temperature_2m" weather) || observed == "")
          (oracle_error "provider response did not include current weather" [])
      let raw = raw_record_of r answers fetched_at
      let raw_bytes = canonical_json F (dict_value raw)
      let body = body_of o r fetched_at observed weather air (C.sha256_hex raw_bytes)
      ok (record {
        body = body;
        signature = C.sign o.signer (plain_json F (dict_value body));
        raw_record = raw;
        raw_bytes = raw_bytes;
      })

    unfoldable pub fetch_current : Oracle → Request → ℕ → Result Fetched
    unfolding check_request ask attest
    fetch_current o r fetched_at = do
      check_request r
      answers ← ask r
      attest o r fetched_at answers

    -- What stands behind the `try`.
    unfoldable pub check_attested : Oracle → Value → Value → Result Bool
    unfolding row_get
    check_attested o body signature = do
      public_key ← row_get null "public_key" body
      (if is_text (C.public_hex o.signer) public_key
          then (elim signature [
            | str s ↦ ok (C.verify_signature (C.public_hex o.signer) (plain_json F body) s)
            | _ ↦ err (type_error "fromhex() argument must be str" [])
          ])
          else ok false)

    unfoldable pub verify_attestation : Oracle → Value → Result Bool
    unfolding check_attested
    verify_attestation o attested = elim (value_item "body" attested) [
      | err e ↦ ok false
      | ok body ↦ elim (value_item "signature" attested) [
        | err e ↦ ok false
        | ok signature ↦ check_attested o body signature
      ]
    ]

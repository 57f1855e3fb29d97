-- ===== src/Oracle/Tests.antt =====
-- The weather at an olive grove, as the provider reports it.
use olivechain.Base.{true, some, [], ◌∷◌, lookup, insert, ◌≡◌, refl}
use olivechain.Json.{str, float, to_fields, of_fields, dict_value}
use olivechain.Json.Access.{truthy}
use olivechain.Result.{Result, ok, err}
use olivechain.World.{floats, crypto, crypto-IsSound}
use olivechain.Oracle.{
  OracleLibrary, Oracle, Request, Fetched, fetch_current, attestation, verify_attestation,
}
use olivechain.Oracle.Attested.{IsAdmitted, IsAttested, fetch_current-IsAttested}

abbrev provider : OracleLibrary
provider = record {
  strip = λ s. s;
  general = λ x. "20.5";
  fixed6 = λ x. "5.000000";
  fixed1 = λ x. "10.0";
  http_get = λ url params. some (
      dict_value (
        (
          "current",
          dict_value (
              ("time", str "2026-01-02T03:00")
              ∷ ("temperature_2m", float (record { bits = 20500 }))
              ∷ []),
        )
        ∷ []));
}

abbrev oracle : Oracle
oracle = record { oracle_id = "oracle"; freshness_seconds = 1200; signer = "oracle-key" }

abbrev grove : Request
grove = record {
  latitude = record { bits = 5000 };
  longitude = record { bits = 7000 };
  accuracy_m = some (record { bits = 10000 });
  event_type = "harvest";
  subject_id = "B1";
}

abbrev the_fetched : Result Fetched → Fetched
the_fetched (ok f) = f
the_fetched (err e) = record { body = []; signature = ""; raw_record = []; raw_bytes = [] }

abbrev fetched : Fetched
fetched = the_fetched (fetch_current provider floats crypto oracle grove 100)

fetches : fetch_current provider floats crypto oracle grove 100 ≡ ok fetched
unfolding fetch_current lookup insert truthy of_fields to_fields
fetches = refl

fetch_current-IsAttested_example :
    IsAdmitted provider floats grove
    × IsAttested provider floats crypto oracle grove 100 fetched
    × (verify_attestation provider floats crypto oracle (attestation fetched) ≡ ok true)
fetch_current-IsAttested_example =
    fetch_current-IsAttested provider floats crypto crypto-IsSound oracle grove 100 fetched fetches

-- ===== src/Passport/Tests.antt =====
-- The passport of a batch that has been harvested.
use olivechain.Base.{false, none, [], ◌∷◌, ◌≡◌, refl}
use olivechain.Base.Int.{pos}
use olivechain.Json.{int}
use olivechain.Event.{Event, genesis_hash, chained_hash}
use olivechain.Evidence.{PathLibrary}
use olivechain.Ledger.{Ledger}
use olivechain.Registry
use olivechain.Result.{Result, ok, err}
use olivechain.World.{floats, crypto, harvest_payload, farm_signature, start}
use olivechain.Passport.{Passport, build_passport, by_time, time_of, insert_timed}

abbrev paths : PathLibrary
paths = record { basename = λ name. name; join = λ root path. path }

abbrev unhashed : Event
unhashed = record {
  event_id = "e1";
  event_type = "harvest";
  subject_id = "BATCH-1";
  actor_org = "farm";
  timestamp = int (pos 1000);
  payload = harvest_payload;
  actor_user = "";
  actor_wallet = "";
  evidence = [];
  prev_hash = genesis_hash;
  signature = farm_signature;
  event_hash = "";
  superseded_by = none;
}

abbrev harvest : Event
harvest = record unhashed { event_hash = chained_hash floats crypto unhashed }

abbrev harvested : Ledger
harvested = record start { events = harvest ∷ []; by_id = ("e1", 0) ∷ [] }

abbrev the_passport : Result Passport → Passport
the_passport (ok p) = p
the_passport (err e) = record {
  batch_id = "";
  ledger_verified = false;
  ledger_problems = [];
  stages = [];
  circular = [];
  rewards = [];
  consumer_scans = 0;
}

abbrev passport : Passport
passport = the_passport (build_passport floats crypto paths none harvested "BATCH-1")

-- Two events of one time keep their order, and an earlier one goes before both.
abbrev early : Event
early = record unhashed { event_id = "e2"; timestamp = int (pos 10) }

abbrev tied : Event
tied = record unhashed { event_id = "e3" }

sorts-Stably :
    by_time floats (unhashed ∷ tied ∷ early ∷ [])
    ≡ ok (
        (floats.of_int (pos 10), early)
        ∷ (floats.of_int (pos 1000), unhashed)
        ∷ (floats.of_int (pos 1000), tied)
        ∷ [])
unfolding by_time time_of insert_timed
sorts-Stably = refl

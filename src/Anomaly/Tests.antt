-- ===== src/Anomaly/Tests.antt =====
-- A harvest that is recorded twice.
use olivechain.Base.{String, none, [], ◌∷◌, All}
use olivechain.Base.Int.{pos}
use olivechain.Event.{Event}
use olivechain.Json.{int}
use olivechain.World.{floats, start, harvest_payload}
use olivechain.Ledger.{Ledger}
use olivechain.Anomaly.{duplicate_records}
use olivechain.Anomaly.Duplicates.{IsDuplicate, duplicate_records-IsDuplicate}

abbrev harvest : String → Event
harvest id = record {
  event_id = id;
  event_type = "harvest";
  subject_id = "BATCH-1";
  actor_org = "farm";
  timestamp = int (pos 5);
  payload = harvest_payload;
  actor_user = "";
  actor_wallet = "";
  evidence = [];
  prev_hash = "";
  signature = "";
  event_hash = "";
  superseded_by = none;
}

abbrev ledger : Ledger
ledger = record start { events = harvest "e1" ∷ harvest "e2" ∷ [] }

duplicate_records-IsDuplicate_example :
    All (IsDuplicate floats ledger) (duplicate_records floats ledger)
duplicate_records-IsDuplicate_example = duplicate_records-IsDuplicate floats ledger

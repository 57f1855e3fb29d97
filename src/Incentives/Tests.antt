-- ===== src/Incentives/Tests.antt =====
-- A ledger with an analysis of the laboratory, which is due a reward.
use olivechain.Base.{false, ◌≡◌, refl, none, lookup, List, [], ◌∷◌}
use olivechain.Event.{Event}
use olivechain.Json.{Float, int, str}
use olivechain.Models.{EventType, value}
use olivechain.Json.Access.{put_key}
use olivechain.Result.{ok}
use olivechain.Base.Int.{pos}
use olivechain.World.{floats, start}
use olivechain.Ledger.{Ledger}
use olivechain.Ledger.Queries.{iter_type}
use olivechain.Incentives.{
  Reward, rules_for, reward_for, already_rewarded, any_result, pays, flagged, resolved, open_flags,
  is_due, due_under, due_of, due_rewards, quality_passes,
}

abbrev analysis : Event
analysis = record {
  event_id = "e4";
  event_type = "lab_verification";
  subject_id = "BATCH-1";
  actor_org = "lab";
  timestamp = int (pos 5);
  payload = ("quality_class", str "extra_virgin") ∷ ("results", str "") ∷ [];
  actor_user = "";
  actor_wallet = "";
  evidence = [];
  prev_hash = "";
  signature = "";
  event_hash = "";
  superseded_by = none;
}

-- A flag on the analysis, and its resolution.
abbrev flag : Event
flag = record analysis {
  event_id = "e5";
  event_type = "review_flag";
  payload =
      ("subject_event", str "e4") ∷ ("rule", str "duplicate") ∷ ("detail", str "the same lot") ∷ [];
}

abbrev resolution : Event
resolution = record analysis {
  event_id = "e6";
  event_type = "review_resolution";
  payload = ("flag_event", str "e5") ∷ ("decision", str "valid") ∷ ("rationale", str "") ∷ [];
}

abbrev ledger : Ledger
ledger = record start { events = analysis ∷ flag ∷ resolution ∷ [] }

abbrev tolerance : Float
tolerance = floats.of_milli 50

-- Before the resolution nothing is due.
flagged-WaitsForReview :
    due_rewards floats tolerance (record start { events = analysis ∷ flag ∷ [] }) ≡ ok []
unfolding due_rewards due_of due_under is_due open_flags flagged resolved already_rewarded
    any_result pays quality_passes rules_for reward_for iter_type value lookup put_key
flagged-WaitsForReview = refl

abbrev due : List Reward
due =
    reward_for analysis (record {
      rule_id = "quality_criteria";
      description = "meeting validated quality or sustainability criteria";
      event_type = EventType.lab_verification;
      amount = 15;
      requires_mass_balance = false;
    })
    ∷ []

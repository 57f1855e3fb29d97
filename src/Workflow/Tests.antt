-- ===== src/Workflow/Tests.antt =====
-- The workflow's theorems at a batch that is harvested.
use olivechain.Base.{String, true, ◌≡◌, refl, ◌↔◌, none, List, [], ◌∷◌, ◌++◌, eqb}
use olivechain.Event.{Event}
use olivechain.Json.{int}
use olivechain.Json.Access.{truthy}
use olivechain.Base.Int.{pos}
use olivechain.World.{floats}
use olivechain.Workflow.Order.{Follows}
use olivechain.Workflow.Steps.{product_steps, workflow_for_type, index}
use olivechain.Workflow.Status.{
  derive_status, event_timestamp, touch, product_round, round, rounds, stepped, at_step, completed,
  next_step, ahead, finish, begin, derive_in, derive_relevant,
}
use olivechain.Workflow.Status.Product.{derive_status-product}
use olivechain.Workflow.Transition.{transition_allowed}
use olivechain.Workflow.Transition.Sound.{transition_allowed-valid}

abbrev event : String → String → Event
event id t = record {
  event_id = id;
  event_type = t;
  subject_id = "BATCH-1";
  actor_org = "farm";
  timestamp = int (pos 5);
  payload = [];
  actor_user = "";
  actor_wallet = "";
  evidence = [];
  prev_hash = "";
  signature = "";
  event_hash = "";
  superseded_by = none;
}

abbrev cultivated : List Event
cultivated = event "e1" "cultivation" ∷ []

abbrev harvested : Event
harvested = event "e2" "harvest"

derive_status-product_example :
    (let st = derive_status floats "BATCH-1" (event "e1" "cultivation" ∷ harvested ∷ []) in
      ((st.valid ≡ true) ↔ Follows product_steps (event "e1" "cultivation" ∷ harvested ∷ []))
      × (Follows product_steps (event "e1" "cultivation" ∷ harvested ∷ [])
          → (st.current_step_number ≡ 2) × (st.complete ≡ eqb 2 7)))
derive_status-product_example =
    derive_status-product floats "BATCH-1" (event "e1" "cultivation") (harvested ∷ []) refl

cultivated-IsValid : (derive_status floats "BATCH-1" cultivated).valid ≡ true
cultivated-IsValid =
    (derive_status-product floats "BATCH-1" (event "e1" "cultivation") [] refl).0.1 (refl, tt)

harvest-IsAllowed :
    (transition_allowed (derive_status floats "BATCH-1" cultivated) "harvest").0 ≡ true
unfolding transition_allowed workflow_for_type index truthy event_timestamp touch product_round
    round rounds stepped at_step completed next_step ahead finish begin derive_in derive_relevant
    derive_status
harvest-IsAllowed = refl

transition_allowed-valid_example :
    (derive_status floats "BATCH-1" (cultivated ++ harvested ∷ [])).valid ≡ true
transition_allowed-valid_example =
    transition_allowed-valid floats "BATCH-1" cultivated harvested cultivated-IsValid
      harvest-IsAllowed

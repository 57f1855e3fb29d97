-- ===== src/Workflow/Status.antt =====
-- `derive_status` of workflow.py. A loop's `current` starts at -1: `done` is `current + 1`.
pub mod Rounds
pub mod Next
pub mod Grown
pub mod Product
use Prim.Native.Nat.{min}
use olivechain.Base.{
  ℕ, zero, suc, ◌+◌, ◌-◌, ◌*◌, String, ◌<>◌, Bool, true, false, not, ◌&&◌, ◌||◌, Option, none, some,
  List, [], ◌∷◌, Dict, lookup, ◌==◌, eqb, ltb, all, any, filter, is_some, length, if◌then◌else◌,
}
use olivechain.Base.Int.{pos}
use olivechain.Event.{Event}
use olivechain.Json.{Value, Float, Floats, str, null, boolean}
use olivechain.Json.Access.{truthy, get_or}
use olivechain.Workflow.Steps.{
  Workflow, product, circular, product_steps, circular_steps, steps_of, labels_of, workflow_name,
  text_in, workflow_for_type, index, at,
}

-- `exists` of the source is `started` here.
pub record WorkflowStatus : Type 0 where
  pub subject_id : String
  pub workflow : String
  pub started : Bool
  pub current_step : String
  pub current_label : String
  pub current_step_number : ℕ
  pub total_steps : ℕ
  pub progress_pct : Float
  pub next_allowed : List String
  pub complete : Bool
  pub valid : Bool
  pub message : String
  pub last_event_id : String
  pub updated_at : String
  pub origin_batch : String

module _ (F : Floats) where
  -- `WorkflowStatus(subject_id=subject_id, next_allowed=[])`
  abbrev pub initial : String → WorkflowStatus
  initial subject_id = record {
    subject_id = subject_id;
    workflow = "unknown";
    started = false;
    current_step = "not_started";
    current_label = "Not started";
    current_step_number = 0;
    total_steps = 0;
    progress_pct = F.zero;
    next_allowed = [];
    complete = false;
    valid = true;
    message = "No workflow event has been recorded for this subject.";
    last_event_id = "";
    updated_at = "";
    origin_batch = "";
  }

-- The variables of the loop of `derive_status`.
pub record Progress : Type 0 where
  pub done : ℕ
  pub accepted_custody : Bool
  pub status : WorkflowStatus

-- One round either returns from the function or goes on.
pub data Round : Type 0 where
  return : WorkflowStatus → Round
  continue : Progress → Round

abbrev pub in_workflow : Workflow → Event → Bool
in_workflow w e = text_in e.event_type (steps_of w)

-- Of the events that belong to a workflow.
abbrev pub relevant : List Event → List Event
relevant = filter (λ e. is_some (workflow_for_type e.event_type))

module _ (F : Floats) where
  unfoldable pub event_timestamp : Event → String
  event_timestamp e = if truthy F e.timestamp then F.to_text e.timestamp else ""

  -- The last two assignments of each round.
  unfoldable pub touch : Event → WorkflowStatus → WorkflowStatus
  unfolding event_timestamp
  touch e st = record st { last_event_id = e.event_id; updated_at = event_timestamp e }

  pub out_of_order : String → List String → String → ℕ → WorkflowStatus → Round
  out_of_order prefix steps event_type done st = return (record st {
    valid = false;
    message =
        prefix
        <> event_type
        <> " while expecting "
        <> at (min done (length steps - 1)) steps
        <> ".";
  })

  unfoldable pub product_round : Event → Progress → Round
  unfolding touch out_of_order
  product_round e p =
      if eqb (index e.event_type product_steps) p.done
      then continue (record p { done = p.done + 1; status = touch e p.status })
      else out_of_order "Existing history is out of order: found " product_steps e.event_type p.done
          p.status

  pub circular_round : Event → Progress → Round
  unfolding touch out_of_order
  circular_round e p =
      let accepted = truthy F (get_or null "accepted" e.payload) in
      if e.event_type == "residue_custody" && eqb p.done 2
      then continue (record p {
        accepted_custody = p.accepted_custody || accepted;
        status = touch e p.status;
      })
      else if e.event_type == "useful_output" && eqb p.done 4
      then continue (record p { status = touch e p.status })
      else if e.event_type == "return_or_sale" && eqb p.done 5
      then continue (record p { status = touch e p.status })
      else if eqb (index e.event_type circular_steps) p.done
      then continue (record {
        done = p.done + 1;
        accepted_custody =
            if e.event_type == "residue_custody" then accepted else p.accepted_custody;
        status = touch e (record p.status {
          origin_batch =
              if e.event_type == "residue_generation"
              then F.to_text (get_or (str "") "origin_batch" e.payload)
              else p.status.origin_batch;
        });
      })
      else out_of_order "Existing circular history is out of order: found " circular_steps
          e.event_type p.done p.status

  unfoldable pub round : Workflow → Event → Progress → Round
  unfolding product_round circular_round
  round product = product_round
  round circular = circular_round

  unfoldable pub rounds : Workflow → List Event → Progress → Round
  rounds w [] p = continue p
  rounds w (e ∷ es) p = elim (round w e p) [ return st ↦ return st | continue p' ↦ rounds w es p' ]

  -- What the function does after the loop.
  pub circular_end : ℕ → Bool → WorkflowStatus → WorkflowStatus → WorkflowStatus
  circular_end done accepted_custody st otherwise =
      if eqb done 2
      then (if accepted_custody
          then record st {
            next_allowed = "valorization" ∷ [];
            message = "Residue accepted. Valorization is the next required step.";
          }
          else record st {
            next_allowed = "residue_custody" ∷ [];
            message = "Waiting for an accepted custody record before valorization.";
          })
      else if eqb done 4
      then record st {
        next_allowed = "useful_output" ∷ "return_or_sale" ∷ [];
        message = "Record another useful output or continue to return or sale.";
      }
      else if eqb done 5
      then record st {
        next_allowed = "return_or_sale" ∷ "env_accounting" ∷ [];
        message = "Record another destination or complete environmental accounting.";
      }
      else otherwise

  unfoldable pub stepped : Workflow → ℕ → WorkflowStatus → WorkflowStatus
  stepped w done st = record st {
    current_step = at (done - 1) (steps_of w);
    current_label = at (done - 1) (labels_of w);
    current_step_number = done;
    progress_pct =
        F.round2 (F.div (F.of_int (pos (done * 100))) (F.of_int (pos (length (steps_of w)))));
  }

  unfoldable pub at_step : Workflow → ℕ → WorkflowStatus → WorkflowStatus
  unfolding stepped
  at_step w done st = if ltb 0 done then stepped w done st else st

  unfoldable pub completed : Workflow → WorkflowStatus → WorkflowStatus
  completed w st = record st {
    complete = true;
    message = "Workflow complete.";
    next_allowed = elim w [ product ↦ "consumer_verification" ∷ [] | circular ↦ [] ];
  }

  unfoldable pub next_step : Workflow → ℕ → WorkflowStatus → WorkflowStatus
  next_step w done st = record st {
    next_allowed = at done (steps_of w) ∷ [];
    message = "Next required step: " <> at done (labels_of w) <> ".";
  }

  unfoldable pub ahead : Workflow → Progress → WorkflowStatus → WorkflowStatus
  unfolding circular_end next_step
  ahead product p st = next_step product p.done st
  ahead circular p st = circular_end p.done p.accepted_custody st (next_step circular p.done st)

  unfoldable pub finish : Workflow → Progress → WorkflowStatus
  unfolding at_step completed ahead
  finish w p =
      let st = at_step w p.done p.status in
      if eqb p.done (length (steps_of w)) then completed w st else ahead w p st

  unfoldable pub begin : String → Workflow → Progress
  begin subject_id w = record {
    done = 0;
    accepted_custody = false;
    status = record (initial F subject_id) {
      workflow = workflow_name w;
      started = true;
      total_steps = length (steps_of w);
    };
  }

  abbrev pub result : Workflow → Round → WorkflowStatus
  result w (return st) = st
  result w (continue p) = finish w p

  pub mixed : String → WorkflowStatus
  mixed subject_id = record (initial F subject_id) {
    started = true;
    valid = false;
    message = "Subject " <> subject_id <> " mixes product and circular workflow events.";
  }

  -- The function from where it has told the workflow.
  unfoldable pub derive_in : Workflow → String → List Event → WorkflowStatus
  unfolding rounds finish begin
  derive_in w subject_id es = result w (rounds w es (begin subject_id w))

  -- The function from where it has the events of the two workflows.
  unfoldable pub derive_relevant : String → List Event → WorkflowStatus
  unfolding derive_in mixed
  derive_relevant subject_id [] = initial F subject_id
  derive_relevant subject_id (e ∷ es) =
      if all (in_workflow product) (e ∷ es)
      then derive_in product subject_id (e ∷ es)
      else if all (in_workflow circular) (e ∷ es)
      then derive_in circular subject_id (e ∷ es)
      else mixed subject_id

  unfoldable pub derive_status : String → List Event → WorkflowStatus
  unfolding derive_relevant
  derive_status subject_id events = derive_relevant subject_id (relevant events)

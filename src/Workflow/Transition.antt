-- ===== src/Workflow/Transition.antt =====
-- `transition_allowed` and `statuses_from_events` of workflow.py.
pub mod Sound
use olivechain.Base.{
  String, ◌<>◌, Bool, true, false, not, ◌&&◌, ◌||◌, Option, none, some, is_some, List, [], ◌∷◌,
  ◌++◌, map, Dict, ◌==◌, any, filter, lookup, insert, if◌then◌else◌,
}
use olivechain.Base.Sort.{sort_by}
use olivechain.Event.{Event}
use olivechain.Json.{Floats}
use olivechain.Workflow.Steps.{product_steps, text_in, workflow_for_type}
use olivechain.Workflow.Status.{WorkflowStatus, derive_status}

-- The types that the source takes at any time.
abbrev pub outside_types : List String
outside_types = "correction" ∷ "reward_issued" ∷ "review_flag" ∷ "review_resolution" ∷ []

-- `text.join(texts)`
abbrev pub join : String → List String → String
join sep [] = ""
join sep (s ∷ []) = s
join sep (s ∷ t ∷ r) = s <> sep <> join sep (t ∷ r)

-- `" or ".join(next_allowed) or "none"`
abbrev next_text : List String → String
next_text next = if join " or " next == "" then "none" else join " or " next

-- The first event of the workflow that an event type is taken to be of.
abbrev pub first_type : String → String
first_type event_type =
    if text_in event_type product_steps then "cultivation" else "residue_generation"

unfoldable pub transition_allowed : WorkflowStatus → String → Bool × String
transition_allowed st event_type =
    if text_in event_type outside_types
    then (true, "")
    else if event_type == "consumer_verification"
    then (if st.workflow == "product" && st.complete
        then (true, "")
        else (false, "Consumer verification is available only after distribution."))
    else if not st.started
    then (if event_type == first_type event_type then (true, "") else (
      false,
      "The workflow has not started. First required event: " <> first_type event_type <> ".",
    ))
    else if text_in event_type st.next_allowed
    then (true, "")
    else (
      false,
      "Current step is "
          <> st.current_step
          <> "; next allowed event is "
          <> next_text st.next_allowed
          <> "; cannot submit "
          <> event_type
          <> ".",
    )

-- `by_subject.setdefault(subject, []).append(event)` for each event of a workflow.
group : Dict (List Event) → List Event → Dict (List Event)
group d [] = d
group d (e ∷ es) =
    let d' =
      insert e.subject_id ((elim (lookup e.subject_id d) [ none ↦ [] | some es ↦ es ]) ++ e ∷ [])
        d in
    group (if is_some (workflow_for_type e.event_type) then d' else d) es

module _ (F : Floats) where
  unfoldable pub statuses_from_events : List Event → List WorkflowStatus
  unfolding group
  statuses_from_events events =
      map (λ (subject, es). derive_status F subject es) (sort_by (λ g. g.0) (group [] events))

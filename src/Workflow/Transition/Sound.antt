-- ===== src/Workflow/Transition/Sound.antt =====
-- The transitions that transition_allowed takes keep a history valid.
use olivechain.Base.{
  String, Bool, true, false, not, ◌≡◌, refl, ◌∙◌, ap, ◌⊎◌, inl, inr, List, [], ◌∷◌, ◌++◌, ◌==◌,
  eq_iff, arith, is_some, if◌then◌else◌, Bool-cases,
}
use olivechain.Base.Filter.{filter-append, append_nil}
use olivechain.Event.{Event}
use olivechain.Json.{Floats}
use olivechain.Workflow.Member.{member}
use olivechain.Workflow.Steps.{product_steps, text_in, workflow_for_type}
use olivechain.Workflow.Status.{WorkflowStatus, relevant, derive_relevant, derive_status}
use olivechain.Workflow.Status.Grown.{derive_relevant-first, derive_relevant-snoc}
use olivechain.Workflow.Transition.{transition_allowed, outside_types, first_type}

-- The events outside the two workflows leave the status as it was.
abbrev is_relevant : Event → Bool
is_relevant e = is_some (workflow_for_type e.event_type)

relevant-snoc :
    (es : List Event) (e : Event) (b : Bool)
    → is_relevant e ≡ b
    → relevant (es ++ e ∷ []) ≡ (if b then relevant es ++ e ∷ [] else relevant es)
relevant-snoc es e true h =
    filter-append is_relevant es (e ∷ []) ∙ ap (λ b. relevant es ++ (if b then e ∷ [] else [])) h
relevant-snoc es e false h =
    filter-append is_relevant es (e ∷ [])
    ∙ ap (λ b. relevant es ++ (if b then e ∷ [] else [])) h
    ∙ append_nil (relevant es)

outside-irrelevant :
    (t : String)
    → text_in t ("consumer_verification" ∷ outside_types) ≡ true
    → not (is_some (workflow_for_type t)) ≡ true
unfolding workflow_for_type
outside-irrelevant t h =
    member (λ t. not (is_some (workflow_for_type t))) t ("consumer_verification" ∷ outside_types) h
      refl

relevant-inside :
    (t : String)
    → is_some (workflow_for_type t) ≡ true
    → (text_in t outside_types ≡ false) × ((t == "consumer_verification") ≡ false)
relevant-inside t r = (
  ground (arith, outside-irrelevant t),
  ground (
    arith,
    outside-irrelevant t,
    eq_iff t "consumer_verification",
    eq_iff "consumer_verification" t,
  ),
)

-- A transition of an event that belongs to a workflow is allowed as a first event or as a next one.
allowed-cases :
    (st : WorkflowStatus) (t : String)
    → is_some (workflow_for_type t) ≡ true
    → (transition_allowed st t).0 ≡ true
    → ((st.started ≡ false) × (t ≡ first_type t))
      ⊎ ((st.started ≡ true) × (text_in t st.next_allowed ≡ true))
unfolding transition_allowed
allowed-cases st t r h = let (o, c) = relevant-inside t r in ground (arith, eq_iff t (first_type t))

first-cases : (t : String) → t ≡ first_type t → (t ≡ "cultivation") ⊎ (t ≡ "residue_generation")
first-cases t h = elim (Bool-cases (text_in t product_steps)) [
  | inl m ↦ inl (h ∙ ap (λ b. if b then "cultivation" else "residue_generation") m)
  | inr m ↦ inr (h ∙ ap (λ b. if b then "cultivation" else "residue_generation") m)
]

module _ (F : Floats) where
  -- An event whose type is allowed in the status of a valid history, and that is added to it, leaves
  -- the history valid.
  pub transition_allowed-valid :
      (subject_id : String) (es : List Event) (e : Event)
      → (derive_status F subject_id es).valid ≡ true
      → (transition_allowed (derive_status F subject_id es) e.event_type).0 ≡ true
      → (derive_status F subject_id (es ++ e ∷ [])).valid ≡ true
  unfolding derive_status
  transition_allowed-valid subject_id es e v h = elim (Bool-cases (is_relevant e)) [
    | inr off ↦
        ap (λ es. (derive_relevant F subject_id es).valid) (relevant-snoc es e false off) ∙ v
    | inl on ↦
        ap (λ es. (derive_relevant F subject_id es).valid) (relevant-snoc es e true on)
        ∙ elim (allowed-cases (derive_status F subject_id es) e.event_type on h) [
          | inl (fresh, first) ↦
              derive_relevant-first F subject_id (relevant es) e v fresh
                (first-cases e.event_type first)
          | inr (started, next) ↦
              derive_relevant-snoc F subject_id (relevant es) e v started next
                (relevant-inside e.event_type on).1
        ]
  ]

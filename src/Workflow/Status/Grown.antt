-- ===== src/Workflow/Status/Grown.antt =====
-- A history of one workflow that grows by an event that its status names as next.
use mathlib.Core.Path.{subst}
use olivechain.Base.{
  String, Bool, true, false, not, ◌&&◌, ◌≡◌, refl, sym, ◌∙◌, ap, ◌⊎◌, inl, inr, List, [], ◌∷◌, ◌++◌,
  ◌==◌, arith, all, if◌then◌else◌, Bool-cases,
}
use olivechain.Base.Filter.{all-append_one}
use olivechain.Event.{Event}
use olivechain.Json.{Floats}
use olivechain.Workflow.Member.{member}
use olivechain.Workflow.Steps.{
  Workflow, product, circular, product_steps, circular_steps, text_in, index, steps_of,
}
use olivechain.Workflow.Status.{
  Progress, Round, return, continue, rounds, finish, begin, mixed, in_workflow, derive_in,
  derive_relevant, result,
}
use olivechain.Workflow.Status.Rounds.{rounds-then, rounds-Ran, Ran, InRange}
use olivechain.Workflow.Status.Next.{
  next_types, goes_on, next-goes_on, goes_on-continue, finish-keeps, finish-next_types,
}

circular-not_product :
    (e : Event) (es : List Event)
    → all (in_workflow circular) (e ∷ es) ≡ true
    → all (in_workflow product) (e ∷ es) ≡ false
circular-not_product e es m =
    let here : text_in e.event_type circular_steps ≡ true = ground arith in
    let other = member (λ t. not (text_in t product_steps)) e.event_type circular_steps here refl in
    not_and _ _ other
  where
    not_and : (a b : Bool) → not a ≡ true → a && b ≡ false
    not_and true b h = cc
    not_and false b h = refl

module _ (F : Floats) where
  begin-InRange : (w : Workflow) (subject_id : String) → InRange w (begin F subject_id w)
  unfolding begin
  begin-InRange w subject_id = (omega arith, refl, refl)

  -- How a valid history has run.
  abbrev Ended : Workflow → String → List Event → Type 0
  Ended w subject_id es =
      (p : Progress) × (rounds F w es (begin F subject_id w) ≡ continue p)
      × InRange w p
      × (derive_in F w subject_id es ≡ finish F w p)

  derive_in-Ended :
      (w : Workflow) (subject_id : String) (es : List Event)
      → all (in_workflow w) es ≡ true
      → (derive_in F w subject_id es).valid ≡ true
      → Ended w subject_id es
  unfolding derive_in
  derive_in-Ended w subject_id es m v =
      of_round (rounds F w es (begin F subject_id w)) refl v
        (rounds-Ran F w es (begin F subject_id w) m (begin-InRange w subject_id))
    where
      of_round :
          (r : Round)
          → rounds F w es (begin F subject_id w) ≡ r
          → (result F w (rounds F w es (begin F subject_id w))).valid ≡ true
          → Ran w (rounds F w es (begin F subject_id w))
          → (p : Progress) × (rounds F w es (begin F subject_id w) ≡ continue p)
            × InRange w p
            × (result F w (rounds F w es (begin F subject_id w)) ≡ finish F w p)
      of_round (return st) h v k =
          absurd (cc (sym (ap (λ r. (result F w r).valid) h) ∙ v, subst (Ran w) h k))
      of_round (continue p) h v k = (p, h, subst (Ran w) h k, ap (result F w) h)

  -- A valid history has started, and names what comes next.
  pub derive_in-started :
      (w : Workflow) (subject_id : String) (es : List Event)
      → all (in_workflow w) es ≡ true
      → (derive_in F w subject_id es).valid ≡ true
      → (derive_in F w subject_id es).started ≡ true
  derive_in-started w subject_id es m v =
      let (p, runs, (n, v', s), ends) = derive_in-Ended w subject_id es m v in
      ap (λ st. st.started) ends ∙ (finish-keeps F w p).1 ∙ s

  -- One more event that the loop goes on with.
  derive_in-grown :
      (w : Workflow) (subject_id : String) (es : List Event) (e : Event) (p : Progress)
      → all (in_workflow w) es ≡ true
      → in_workflow w e ≡ true
      → rounds F w es (begin F subject_id w) ≡ continue p
      → goes_on w e.event_type p.done ≡ true
      → (derive_in F w subject_id (es ++ e ∷ [])).valid ≡ true
  unfolding derive_in
  derive_in-grown w subject_id es e p m m' runs on =
      let start = begin F subject_id w in
      let (p', goes) = goes_on-continue F w e p on in
      let all_run = rounds-then F w es e start p p' runs goes in
      let ran =
        rounds-Ran F w (es ++ e ∷ []) start (all-append_one (in_workflow w) es e m m')
          (begin-InRange w subject_id) in
      let (n, v, s) = subst (Ran w) all_run ran in
      ap (λ r. (result F w r).valid) all_run ∙ (finish-keeps F w p').0 ∙ v

  -- One more event that the status names as next leaves the history valid.
  derive_in-snoc :
      (w : Workflow) (subject_id : String) (es : List Event) (e : Event)
      → all (in_workflow w) es ≡ true
      → (derive_in F w subject_id es).valid ≡ true
      → text_in e.event_type (derive_in F w subject_id es).next_allowed ≡ true
      → (e.event_type == "consumer_verification") ≡ false
      → (in_workflow w e ≡ true) × ((derive_in F w subject_id (es ++ e ∷ [])).valid ≡ true)
  derive_in-snoc w subject_id es e m v a c =
      let (p, runs, (n, v', s), ends) = derive_in-Ended w subject_id es m v in
      let named : text_in e.event_type (next_types w p.done p.accepted_custody) ≡ true =
        subst (λ ts. text_in e.event_type ts ≡ true)
          (ap (λ st. st.next_allowed) ends ∙ finish-next_types F w p) a in
      let (on, m') = next-goes_on w e.event_type p.done p.accepted_custody n c named in
      (m', derive_in-grown w subject_id es e p m m' runs on)

  derive_relevant-in :
      (w : Workflow) (subject_id : String) (e : Event) (es : List Event)
      → all (in_workflow w) (e ∷ es) ≡ true
      → derive_relevant F subject_id (e ∷ es) ≡ derive_in F w subject_id (e ∷ es)
  unfolding derive_relevant
  derive_relevant-in product subject_id e es m =
      ap
        (λ b.
          if b
          then derive_in F product subject_id (e ∷ es)
          else (if all (in_workflow circular) (e ∷ es)
              then derive_in F circular subject_id (e ∷ es)
              else mixed F subject_id))
        m
  derive_relevant-in circular subject_id e es m =
      let other = circular-not_product e es m in
      ap
        (λ b.
          if b
          then derive_in F product subject_id (e ∷ es)
          else (if all (in_workflow circular) (e ∷ es)
              then derive_in F circular subject_id (e ∷ es)
              else mixed F subject_id))
        other
      ∙ ap (λ b. if b then derive_in F circular subject_id (e ∷ es) else mixed F subject_id) m

  mixed_valid : {a b : Bool} → a ≡ b → b ≡ false → a ≡ true → ⊥
  mixed_valid h k v = cc

  -- The workflow of a valid history.
  derive_relevant-workflow :
      (subject_id : String) (e : Event) (es : List Event)
      → (derive_relevant F subject_id (e ∷ es)).valid ≡ true
      → (w : Workflow) × (all (in_workflow w) (e ∷ es) ≡ true)
        × (derive_relevant F subject_id (e ∷ es) ≡ derive_in F w subject_id (e ∷ es))
  unfolding derive_relevant mixed
  derive_relevant-workflow subject_id e es v =
      elim (Bool-cases (all (in_workflow product) (e ∷ es))) [
        | inl m ↦ (product, m, derive_relevant-in product subject_id e es m)
        | inr n ↦ elim (Bool-cases (all (in_workflow circular) (e ∷ es))) [
          | inl m ↦ (circular, m, derive_relevant-in circular subject_id e es m)
          | inr n' ↦ absurd (
              mixed_valid
                (ap
                  (λ b.
                    (if b
                      then derive_in F product subject_id (e ∷ es)
                      else (if all (in_workflow circular) (e ∷ es)
                          then derive_in F circular subject_id (e ∷ es)
                          else mixed F subject_id)).valid)
                  n)
                (ap
                  (λ b.
                    (if b
                      then derive_in F circular subject_id (e ∷ es)
                      else mixed F subject_id).valid)
                  n')
                v)
        ]
      ]

  -- The same of the events of the workflows, whatever they are; a first event starts a history.
  pub derive_relevant-snoc :
      (subject_id : String) (es : List Event) (e : Event)
      → (derive_relevant F subject_id es).valid ≡ true
      → (derive_relevant F subject_id es).started ≡ true
      → text_in e.event_type (derive_relevant F subject_id es).next_allowed ≡ true
      → (e.event_type == "consumer_verification") ≡ false
      → (derive_relevant F subject_id (es ++ e ∷ [])).valid ≡ true
  unfolding derive_relevant
  derive_relevant-snoc subject_id [] e v s a c = cc
  derive_relevant-snoc subject_id (x ∷ es) e v s a c =
      let (w, m, same) = derive_relevant-workflow subject_id x es v in
      let (m', v') =
        derive_in-snoc w subject_id (x ∷ es) e m (subst (λ st. st.valid ≡ true) same v)
          (subst (λ st. text_in e.event_type st.next_allowed ≡ true) same a) c in
      subst (λ st. st.valid ≡ true)
        (sym (
          derive_relevant-in w subject_id x (es ++ e ∷ [])
            (all-append_one (in_workflow w) (x ∷ es) e m m')))
        v'

  derive_relevant-one :
      (w : Workflow) (subject_id : String) (e : Event) (t : String)
      → e.event_type ≡ t
      → text_in t (steps_of w) ≡ true
      → goes_on w t 0 ≡ true
      → (derive_relevant F subject_id (e ∷ [])).valid ≡ true
  unfolding begin rounds
  derive_relevant-one w subject_id e t a m g =
      let m' : in_workflow w e ≡ true = ap (λ t. text_in t (steps_of w)) a ∙ m in
      let on : goes_on w e.event_type 0 ≡ true = ap (λ t. goes_on w t 0) a ∙ g in
      ap (λ st. st.valid)
        (derive_relevant-in w subject_id e [] (all-append_one (in_workflow w) [] e refl m'))
      ∙ derive_in-grown w subject_id [] e (begin F subject_id w) refl m' refl on

  pub derive_relevant-first :
      (subject_id : String) (es : List Event) (e : Event)
      → (derive_relevant F subject_id es).valid ≡ true
      → (derive_relevant F subject_id es).started ≡ false
      → (e.event_type ≡ "cultivation") ⊎ (e.event_type ≡ "residue_generation")
      → (derive_relevant F subject_id (es ++ e ∷ [])).valid ≡ true
  unfolding derive_relevant index
  derive_relevant-first subject_id [] e v s (inl a) =
      derive_relevant-one product subject_id e "cultivation" a refl refl
  derive_relevant-first subject_id [] e v s (inr a) =
      derive_relevant-one circular subject_id e "residue_generation" a refl refl
  derive_relevant-first subject_id (x ∷ es) e v s a =
      let (w, m, same) = derive_relevant-workflow subject_id x es v in
      absurd (
        cc (
          s,
          ap (λ st. st.started) same
              ∙ derive_in-started w subject_id (x ∷ es) m (subst (λ st. st.valid ≡ true) same v),
        ))

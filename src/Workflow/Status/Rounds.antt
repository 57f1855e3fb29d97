-- ===== src/Workflow/Status/Rounds.antt =====
-- The loop of derive_status, round by round: what a round keeps, and histories that grow.
use olivechain.Base.{
  ◌+◌, ◌≤◌, true, false, ◌&&◌, ◌≡◌, refl, ◌∙◌, ap, ◌⊎◌, inl, inr, List, [], ◌∷◌, ◌++◌, ◌==◌, arith,
  all, length, eqb,
}
use olivechain.Base.Filter.{if-elim}
use olivechain.Event.{Event}
use olivechain.Json.{Floats}
use olivechain.Workflow.Order.{index-lt}
use olivechain.Workflow.Steps.{
  Workflow, product, circular, product_steps, circular_steps, index, steps_of,
}
use olivechain.Workflow.Status.{
  WorkflowStatus, Progress, Round, return, continue, product_round, circular_round, round, rounds,
  in_workflow, touch, out_of_order,
}

-- A round that returns has found the history invalid; one that goes on keeps the flags of the
-- status, and stays at the step or goes to the next one, which is then the event's.
abbrev pub Kept : Workflow → Event → Progress → Round → Type 0
Kept w e p (return st) = st.valid ≡ false
Kept w e p (continue p') =
    (p'.status.valid ≡ p.status.valid)
    × (p'.status.started ≡ p.status.started)
    × ((p'.done ≡ p.done) ⊎ ((p'.done ≡ p.done + 1) × (index e.event_type (steps_of w) ≡ p.done)))

-- What holds before each round of a valid history.
abbrev pub InRange : Workflow → Progress → Type 0
InRange w p = (p.done ≤ length (steps_of w)) × (p.status.valid ≡ true) × (p.status.started ≡ true)

-- What a whole run leaves: an invalid status, or such a state.
abbrev pub Ran : Workflow → Round → Type 0
Ran w (return st) = st.valid ≡ false
Ran w (continue p) = InRange w p

module _ (F : Floats) where
  pub rounds-on :
      (w : Workflow) (e : Event) (es : List Event) (p p' : Progress)
      → round F w e p ≡ continue p'
      → rounds F w (e ∷ es) p ≡ rounds F w es p'
  unfolding rounds
  rounds-on w e es p p' h =
      ap (λ r. elim r [ return st ↦ return st | continue p' ↦ rounds F w es p' ]) h

  pub rounds-stop :
      (w : Workflow) (e : Event) (es : List Event) (p : Progress) {st : WorkflowStatus}
      → round F w e p ≡ return st
      → rounds F w (e ∷ es) p ≡ return st
  unfolding rounds
  rounds-stop w e es p h =
      ap (λ r. elim r [ return st ↦ return st | continue p' ↦ rounds F w es p' ]) h

  product_round-Kept : (e : Event) (p : Progress) → Kept product e p (product_round F e p)
  unfolding product_round touch out_of_order
  product_round-Kept e p =
      if-elim (Kept product e p) (eqb (index e.event_type product_steps) p.done) _ _
        (λ h. (refl, refl, inr (refl, ground arith))) (λ h. refl)

  circular_round-Kept : (e : Event) (p : Progress) → Kept circular e p (circular_round F e p)
  unfolding circular_round touch out_of_order
  circular_round-Kept e p =
      if-elim (Kept circular e p) (e.event_type == "residue_custody" && eqb p.done 2) _ _
        (λ h. (refl, refl, inl refl))
        λ _.
          if-elim (Kept circular e p) (e.event_type == "useful_output" && eqb p.done 4) _ _
            (λ h. (refl, refl, inl refl))
            λ _.
              if-elim (Kept circular e p) (e.event_type == "return_or_sale" && eqb p.done 5) _ _
                (λ h. (refl, refl, inl refl))
                λ _.
                  if-elim (Kept circular e p) (eqb (index e.event_type circular_steps) p.done) _ _
                    (λ h. (refl, refl, inr (refl, ground arith))) (λ h. refl)

  round-Kept : (w : Workflow) (e : Event) (p : Progress) → Kept w e p (round F w e p)
  unfolding round
  round-Kept product e p = product_round-Kept e p
  round-Kept circular e p = circular_round-Kept e p

  Kept-Ran :
      (w : Workflow) (e : Event) (p : Progress) (r : Round)
      → in_workflow w e ≡ true
      → InRange w p
      → Kept w e p r
      → Ran w r
  Kept-Ran w e p (return st) m i k = k
  Kept-Ran w e p (continue p') m (n, v, s) (v', s', inl d) = (omega arith, v' ∙ v, s' ∙ s)
  Kept-Ran w e p (continue p') m (n, v, s) (v', s', inr (d, here)) =
      (omega (arith, index-lt e.event_type (steps_of w) m), v' ∙ v, s' ∙ s)

  Ran-next :
      (w : Workflow) (es : List Event) (r : Round)
      → Ran w r
      → ((p : Progress) → InRange w p → Ran w (rounds F w es p))
      → Ran w (elim r [ return st ↦ return st | continue p ↦ rounds F w es p ])
  Ran-next w es (return st) h f = h
  Ran-next w es (continue p) h f = f p h

  pub rounds-Ran :
      (w : Workflow) (es : List Event) (p : Progress)
      → all (in_workflow w) es ≡ true
      → InRange w p
      → Ran w (rounds F w es p)
  unfolding rounds
  rounds-Ran w [] p m i = i
  rounds-Ran w (e ∷ es) p m i =
      Ran-next w es (round F w e p)
        (Kept-Ran w e p (round F w e p) (ground arith) i (round-Kept w e p))
        (λ p' i'. rounds-Ran w es p' (ground arith) i')

  continue-next :
      (f g : Progress → Round) (r : Round) (p₁ p₂ : Progress)
      → (elim r [ return st ↦ return st | continue p ↦ f p ]) ≡ continue p₁
      → ((p : Progress) → f p ≡ continue p₁ → g p ≡ continue p₂)
      → (elim r [ return st ↦ return st | continue p ↦ g p ]) ≡ continue p₂
  continue-next f g (return st) p₁ p₂ h k = cc
  continue-next f g (continue p) p₁ p₂ h k = k p h

  -- Adding one event to a history that the loop runs through.
  pub rounds-then :
      (w : Workflow) (es : List Event) (e : Event) (p p₁ p₂ : Progress)
      → rounds F w es p ≡ continue p₁
      → round F w e p₁ ≡ continue p₂
      → rounds F w (es ++ e ∷ []) p ≡ continue p₂
  unfolding rounds
  rounds-then w [] e p p₁ p₂ h h' =
      rounds-on w e [] p p₂
        (ap (λ r. elim r [ return st ↦ round F w e p₁ | continue q ↦ round F w e q ]) h ∙ h')
  rounds-then w (x ∷ es) e p p₁ p₂ h h' =
      continue-next (rounds F w es) (rounds F w (es ++ e ∷ [])) (round F w x p) p₁ p₂ h
        (λ p' k. rounds-then w es e p' p₁ p₂ k h')

-- ===== src/Workflow/Status/Product.antt =====
-- The product workflow: a history is valid exactly when its events are the steps in their order.
use mathlib.Core.Path.{subst}
use olivechain.Base.{
  ℕ, ◌+◌, String, Bool, true, false, ◌≡◌, refl, sym, ◌∙◌, ap, ◌↔◌, inl, inr, List, [], ◌∷◌, arith,
  all, ltb, length, drop, if◌then◌else◌, Bool-cases, eqb, is_some, none, some,
}
use olivechain.Event.{Event}
use olivechain.Json.{Floats}
use olivechain.Workflow.Steps.{
  Workflow, product, circular, product_steps, circular_steps, text_in, index, workflow_for_type,
}
use olivechain.Base.Filter.{filter-all}
use olivechain.Workflow.Order.{Follows, head-in_order, in_order-Follows}
use olivechain.Workflow.Status.Rounds.{rounds-on, rounds-stop}
use olivechain.Workflow.Status.{
  WorkflowStatus, Progress, return, continue, product_round, round, rounds, finish, begin, mixed,
  next_step, at_step, stepped, completed, ahead, derive_in, in_workflow, touch, out_of_order,
  derive_relevant, derive_status, result,
}

workflow_for_type-product :
    (t : String) → text_in t product_steps ≡ true → is_some (workflow_for_type t) ≡ true
unfolding workflow_for_type
workflow_for_type-product t h =
    ap
      (λ b.
        is_some
          (if b then some product else (if text_in t circular_steps then some circular else none)))
      h

module _ (F : Floats) where
  abbrev IsRunning : Progress → Type 0
  IsRunning p = (p.status.valid ≡ true) × (p.status.complete ≡ false)

  round-in_order :
      (e : Event) (p : Progress)
      → index e.event_type product_steps ≡ p.done
      → round F product e p ≡ continue (record p { done = p.done + 1; status = touch F e p.status })
  unfolding round product_round
  round-in_order e p h = ground arith

  out_of_order-valid :
      (prefix : String) (steps : List String) (t : String) (k : ℕ) (s : WorkflowStatus)
      → (st : WorkflowStatus) × (out_of_order F prefix steps t k s ≡ return st) × (st.valid ≡ false)
  unfolding out_of_order
  out_of_order-valid prefix steps t k s = (_, refl, refl)

  round-out_of_order :
      (e : Event) (p : Progress)
      → eqb (index e.event_type product_steps) p.done ≡ false
      → (st : WorkflowStatus) × (round F product e p ≡ return st) × (st.valid ≡ false)
  unfolding round product_round
  round-out_of_order e p h =
      let (st, stops, bad) =
        out_of_order-valid "Existing history is out of order: found " product_steps e.event_type
          p.done p.status in
      (st, cc (h, stops), bad)

  touch-IsRunning :
      (e : Event) (st : WorkflowStatus)
      → ((touch F e st).valid ≡ st.valid) × ((touch F e st).complete ≡ st.complete)
  unfolding touch
  touch-IsRunning e st = (refl, refl)

  -- A history that follows the steps left runs through the loop.
  rounds-follow :
      (es : List Event) (p : Progress)
      → Follows (drop p.done product_steps) es
      → IsRunning p
      → (p' : Progress) × (rounds F product es p ≡ continue p')
        × (p'.done ≡ p.done + length es)
        × IsRunning p'
  unfolding rounds
  rounds-follow [] p h v = (p, refl, omega arith, v)
  rounds-follow (e ∷ es) p h v =
      let (here, later) = head-in_order p.done e es _ refl h in
      let p₁ = record p { done = p.done + 1; status = touch F e p.status } in
      let (valid, complete) = touch-IsRunning e p.status in
      let (p', runs, d, v') = rounds-follow es p₁ later (valid ∙ v.0, complete ∙ v.1) in
      (p', rounds-on F product e es p p₁ (round-in_order e p here) ∙ runs, omega (arith, d), v')

  -- Any other history is found invalid.
  rounds-valid :
      (es : List Event) (p : Progress)
      → all (in_workflow product) es ≡ true
      → (result F product (rounds F product es p)).valid ≡ true
      → Follows (drop p.done product_steps) es
  unfolding rounds
  rounds-valid [] p h v = tt
  rounds-valid (e ∷ es) p h v = elim (Bool-cases (eqb (index e.event_type product_steps) p.done)) [
    | inl on ↦
        let here : index e.event_type product_steps ≡ p.done = ground arith in
        let p₁ = record p { done = p.done + 1; status = touch F e p.status } in
        in_order-Follows p.done e es (ground arith) here (
          rounds-valid es p₁ (ground arith) (
            sym (
              ap (λ r. (result F product r).valid)
                (rounds-on F product e es p p₁ (round-in_order e p here)))
            ∙ v))
    | inr off ↦
        let (st, stops, bad) = round-out_of_order e p off in
        absurd (
          cc (
            sym (ap (λ r. (result F product r).valid) (rounds-stop F product e es p stops)) ∙ v,
            bad,
          ))
  ]

  at_step-started :
      (w : Workflow) (k : ℕ) (st : WorkflowStatus)
      → ltb 0 k ≡ true
      → ((at_step F w k st).valid ≡ st.valid)
        × ((at_step F w k st).complete ≡ st.complete)
        × ((at_step F w k st).current_step_number ≡ k)
  unfolding at_step stepped
  at_step-started w k st h =
      let step : at_step F w k st ≡ stepped F w k st =
        ap (λ b. if b then stepped F w k st else st) h in
      (
        ap (λ st. st.valid) step,
        ap (λ st. st.complete) step,
        ap (λ st. st.current_step_number) step,
      )

  -- The fields that the steps of the end keep or set.
  Ends : WorkflowStatus → WorkflowStatus → Bool → Type 0
  Ends st st' complete =
      (st'.valid ≡ st.valid)
      × (st'.current_step_number ≡ st.current_step_number)
      × (st'.complete ≡ complete)

  completed-Ends : (st : WorkflowStatus) → Ends st (completed F product st) true
  unfolding Ends completed
  completed-Ends st = (refl, refl, refl)

  ahead-Ends : (p : Progress) (st : WorkflowStatus) → Ends st (ahead F product p st) st.complete
  unfolding Ends ahead next_step
  ahead-Ends p st = (refl, refl, refl)

  if-Ends :
      (b : Bool) (st x y : WorkflowStatus)
      → st.complete ≡ false
      → Ends st x true
      → Ends st y st.complete
      → Ends st (if b then x else y) b
  unfolding Ends
  if-Ends true st x y c hx hy = hx
  if-Ends false st x y c hx (v, n, d) = (v, n, d ∙ c)

  -- What the function does after the loop.
  finish-product :
      (p : Progress)
      → ltb 0 p.done ≡ true
      → IsRunning p
      → (let st = finish F product p in
          (st.valid ≡ true) × (st.current_step_number ≡ p.done) × (st.complete ≡ eqb p.done 7))
  unfolding finish Ends
  finish-product p d (v, c) =
      let st = at_step F product p.done p.status in
      let (valid, complete, number) = at_step-started product p.done p.status d in
      let (v', n', c') =
        if-Ends (eqb p.done 7) st _ _ (complete ∙ c) (completed-Ends st) (ahead-Ends p st) in
      (v' ∙ valid ∙ v, n' ∙ number, c')

  derive_status-in_product :
      (subject_id : String) (e : Event) (es : List Event)
      → all (in_workflow product) (e ∷ es) ≡ true
      → derive_status F subject_id (e ∷ es) ≡ derive_in F product subject_id (e ∷ es)
  unfolding derive_status derive_relevant
  derive_status-in_product subject_id e es h =
      ap (derive_relevant F subject_id) (
        filter-all {q = in_workflow product} (e ∷ es) (λ e. workflow_for_type-product e.event_type)
          h)
      ∙ ap
          (λ b.
            if b
            then derive_in F product subject_id (e ∷ es)
            else (if all (in_workflow circular) (e ∷ es)
                then derive_in F circular subject_id (e ∷ es)
                else mixed F subject_id))
          h

  derive_in-finish :
      (subject_id : String) (es : List Event)
      → Follows product_steps es
      → (p : Progress) × (derive_in F product subject_id es ≡ finish F product p)
        × (p.done ≡ length es)
        × IsRunning p
  unfolding derive_in begin
  derive_in-finish subject_id es f =
      let (p, runs, d, v) = rounds-follow es (begin F subject_id product) f (refl, refl) in
      (p, ap (result F product) runs, omega (arith, d), v)

  derive_in-Follows :
      (subject_id : String) (es : List Event)
      → all (in_workflow product) es ≡ true
      → (derive_in F product subject_id es).valid ≡ true
      → Follows product_steps es
  unfolding derive_in begin
  derive_in-Follows subject_id es h v = rounds-valid es (begin F subject_id product) h v

  derive_in-Follows_ends :
      (subject_id : String) (e : Event) (es : List Event)
      → Follows product_steps (e ∷ es)
      → (let st = derive_in F product subject_id (e ∷ es) in
          (st.valid ≡ true)
          × (st.current_step_number ≡ length (e ∷ es))
          × (st.complete ≡ eqb (length (e ∷ es)) 7))
  derive_in-Follows_ends subject_id e es f =
      let (p, ends, d, v) = derive_in-finish subject_id (e ∷ es) f in
      let some : ltb 0 p.done ≡ true = ap (ltb 0) d ∙ ground arith in
      let (valid, number, complete) = finish-product p some v in
      (
        ap (λ st. st.valid) ends ∙ valid,
        ap (λ st. st.current_step_number) ends ∙ number ∙ d,
        ap (λ st. st.complete) ends ∙ complete ∙ ap (λ k. eqb k 7) d,
      )

  -- The derived status of a history of product events, of which there is one at least, is valid
  -- exactly when the events are of the product steps from the first on, one for each, in order.
  -- Then the step number is the number of events, and the workflow is complete exactly when these
  -- are seven.
  pub derive_status-product :
      (subject_id : String) (e : Event) (es : List Event)
      → all (in_workflow product) (e ∷ es) ≡ true
      → (let st = derive_status F subject_id (e ∷ es) in
          ((st.valid ≡ true) ↔ Follows product_steps (e ∷ es))
          × (Follows product_steps (e ∷ es)
              → (st.current_step_number ≡ length (e ∷ es))
                × (st.complete ≡ eqb (length (e ∷ es)) 7)))
  derive_status-product subject_id e es h =
      let runs = derive_status-in_product subject_id e es h in
      let ends =
        subst
          (λ st.
            Follows product_steps (e ∷ es)
            → (st.valid ≡ true)
              × (st.current_step_number ≡ length (e ∷ es))
              × (st.complete ≡ eqb (length (e ∷ es)) 7))
          (sym runs) (derive_in-Follows_ends subject_id e es) in
      (
        (
          λ v. derive_in-Follows subject_id (e ∷ es) h (sym (ap (λ st. st.valid) runs) ∙ v),
          λ f. (ends f).0,
        ),
        λ f. ((ends f).1, (ends f).2),
      )

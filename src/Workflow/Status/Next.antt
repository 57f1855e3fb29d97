-- ===== src/Workflow/Status/Next.antt =====
-- The types that a derived status names as next are those that one more round goes on with.
use olivechain.Base.{
  ℕ, zero, suc, ◌≤◌, String, Bool, true, false, ◌&&◌, ◌||◌, ◌≡◌, refl, ◌∙◌, List, [], ◌∷◌, ◌==◌,
  arith, all, length, if◌then◌else◌, eqb, ltb,
}
use olivechain.Base.Filter.{if-ap, if-same, if-elim}
use olivechain.Event.{Event}
use olivechain.Json.{Floats}
use olivechain.Workflow.Member.{member}
use olivechain.Workflow.Steps.{
  Workflow, product, circular, product_steps, circular_steps, text_in, at, index, steps_of,
}
use olivechain.Workflow.Status.{
  WorkflowStatus, Progress, Round, continue, product_round, circular_round, round, finish, at_step,
  stepped, next_step, circular_end, completed, ahead,
}

-- The types that come next, by the number of steps done.
abbrev pub next_types : Workflow → ℕ → Bool → List String
next_types product k accepted =
    if eqb k 7 then "consumer_verification" ∷ [] else at k product_steps ∷ []
next_types circular k accepted =
    if eqb k 6
    then []
    else if eqb k 2
    then (if accepted then "valorization" ∷ [] else "residue_custody" ∷ [])
    else if eqb k 4
    then "useful_output" ∷ "return_or_sale" ∷ []
    else if eqb k 5
    then "return_or_sale" ∷ "env_accounting" ∷ []
    else at k circular_steps ∷ []

-- The event types that a round at this step goes on with.
abbrev pub goes_on : Workflow → String → ℕ → Bool
goes_on product t k = eqb (index t product_steps) k
goes_on circular t k =
    (t == "residue_custody" && eqb k 2)
    || (t == "useful_output" && eqb k 4)
    || (t == "return_or_sale" && eqb k 5)
    || eqb (index t circular_steps) k

both : (a b c : Bool) → a && b || c ≡ true → c ≡ false → (a ≡ true) × (b ≡ true)
both true true c h k = (refl, refl)
both true false c h k = cc
both false b c h k = cc

-- Each of the types that come next is one that the next round goes on with, or it ends the workflow.
next-all :
    (w : Workflow) (k : ℕ) (accepted : Bool)
    → k ≤ length (steps_of w)
    → all
        (λ t. goes_on w t k && text_in t (steps_of w) || t == "consumer_verification")
        (next_types w k accepted)
      ≡ true
unfolding index
next-all product zero b n = refl
next-all product (suc zero) b n = refl
next-all product (suc (suc zero)) b n = refl
next-all product (suc (suc (suc zero))) b n = refl
next-all product (suc (suc (suc (suc zero)))) b n = refl
next-all product (suc (suc (suc (suc (suc zero))))) b n = refl
next-all product (suc (suc (suc (suc (suc (suc zero)))))) b n = refl
next-all product (suc (suc (suc (suc (suc (suc (suc zero))))))) b n = refl
next-all product (suc (suc (suc (suc (suc (suc (suc (suc k)))))))) b n = absurd (omega (arith, n))
next-all circular zero b n = refl
next-all circular (suc zero) b n = refl
next-all circular (suc (suc zero)) true n = refl
next-all circular (suc (suc zero)) false n = refl
next-all circular (suc (suc (suc zero))) b n = refl
next-all circular (suc (suc (suc (suc zero)))) b n = refl
next-all circular (suc (suc (suc (suc (suc zero))))) b n = refl
next-all circular (suc (suc (suc (suc (suc (suc zero)))))) b n = refl
next-all circular (suc (suc (suc (suc (suc (suc (suc k))))))) b n = absurd (omega (arith, n))

pub next-goes_on :
    (w : Workflow) (t : String) (k : ℕ) (accepted : Bool)
    → k ≤ length (steps_of w)
    → (t == "consumer_verification") ≡ false
    → text_in t (next_types w k accepted) ≡ true
    → (goes_on w t k ≡ true) × (text_in t (steps_of w) ≡ true)
next-goes_on w t k b n d h =
    both (goes_on w t k) (text_in t (steps_of w)) _
      (member (λ t. goes_on w t k && text_in t (steps_of w) || t == "consumer_verification") t
        (next_types w k b) h (next-all w k b n))
      d

-- The status is as valid and as started as it was.
abbrev Same : WorkflowStatus → WorkflowStatus → Type 0
Same st st' = (st'.valid ≡ st.valid) × (st'.started ≡ st.started)

module _ (F : Floats) where
  at_step-keeps :
      (w : Workflow) (k : ℕ) (st : WorkflowStatus)
      → ((at_step F w k st).valid ≡ st.valid) × ((at_step F w k st).started ≡ st.started)
  unfolding at_step stepped
  at_step-keeps w k st = (
    if-same (λ st. st.valid) (ltb 0 k) (stepped F w k st) st _ refl refl,
    if-same (λ st. st.started) (ltb 0 k) (stepped F w k st) st _ refl refl,
  )

  ahead-keeps :
      (w : Workflow) (p : Progress) (st : WorkflowStatus)
      → ((ahead F w p st).valid ≡ st.valid) × ((ahead F w p st).started ≡ st.started)
  unfolding ahead next_step circular_end
  ahead-keeps product p st = (refl, refl)
  ahead-keeps circular p st =
      if-elim (Same st) (eqb p.done 2) _ _
        (λ _. if-elim (Same st) p.accepted_custody _ _ (λ _. (refl, refl)) (λ _. (refl, refl)))
        (λ _.
          if-elim (Same st) (eqb p.done 4) _ _ (λ _. (refl, refl))
            (λ _. if-elim (Same st) (eqb p.done 5) _ _ (λ _. (refl, refl)) (λ _. (refl, refl))))

  pub finish-keeps :
      (w : Workflow) (p : Progress)
      → ((finish F w p).valid ≡ p.status.valid) × ((finish F w p).started ≡ p.status.started)
  unfolding finish completed
  finish-keeps w p =
      let (v, s) = at_step-keeps w p.done p.status in
      if-elim (Same p.status) (eqb p.done (length (steps_of w))) _ _ (λ _. (v, s))
        (λ _. let (v', s') = ahead-keeps w p (at_step F w p.done p.status) in (v' ∙ v, s' ∙ s))

  circular_end-next_types :
      (k : ℕ) (accepted : Bool) (st other : WorkflowStatus)
      → other.next_allowed ≡ at k circular_steps ∷ []
      → eqb k 6 ≡ false
      → (circular_end F k accepted st other).next_allowed ≡ next_types circular k accepted
  unfolding circular_end
  circular_end-next_types k accepted st other h n = ground arith

  pub finish-next_types :
      (w : Workflow) (p : Progress)
      → (finish F w p).next_allowed ≡ next_types w p.done p.accepted_custody
  unfolding finish completed ahead next_step
  finish-next_types product p = if-ap (λ (st : WorkflowStatus). st.next_allowed) (eqb p.done 7) _ _
  finish-next_types circular p =
      if-elim
        (λ (st : WorkflowStatus). st.next_allowed ≡ next_types circular p.done p.accepted_custody)
        (eqb p.done 6) _ _ (λ h. ground (arith, h))
        (λ h.
          circular_end-next_types p.done p.accepted_custody (at_step F circular p.done p.status)
            (next_step F circular p.done (at_step F circular p.done p.status)) refl h)

  abbrev Goes : Round → Type 0
  Goes r = (p' : Progress) × (r ≡ continue p')

  pub goes_on-continue :
      (w : Workflow) (e : Event) (p : Progress)
      → goes_on w e.event_type p.done ≡ true
      → (p' : Progress) × (round F w e p ≡ continue p')
  unfolding round product_round circular_round
  goes_on-continue product e p h =
      if-elim Goes (eqb (index e.event_type product_steps) p.done) _ _ (λ _. (_, refl))
        (λ k. absurd (cc (k, h)))
  goes_on-continue circular e p h =
      if-elim Goes (e.event_type == "residue_custody" && eqb p.done 2) _ _ (λ _. (_, refl))
        λ a.
          if-elim Goes (e.event_type == "useful_output" && eqb p.done 4) _ _ (λ _. (_, refl))
            λ b.
              if-elim Goes (e.event_type == "return_or_sale" && eqb p.done 5) _ _ (λ _. (_, refl))
                λ c.
                  if-elim Goes (eqb (index e.event_type circular_steps) p.done) _ _ (λ _. (_, refl))
                    λ d. absurd (cc (a, b, c, d, h))

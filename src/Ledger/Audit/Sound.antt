-- ===== src/Ledger/Audit/Sound.antt =====
-- What a report of no problems means: verify_chain against a description of a sound chain.
use olivechain.Base.{
  ℕ, ◌+◌, String, true, ◌≡◌, refl, ◌∙◌, ap, ◌↔◌, List, [], ◌∷◌, ◌++◌, eq_iff, arith, inl, inr,
}
use olivechain.Crypto.{Crypto}
use olivechain.Json.{Floats}
use olivechain.Event.{Event, genesis_hash, signing_body, chained_hash}
use olivechain.Registry
use olivechain.Registry.{Registry, Organization}
use olivechain.Ledger.{Ledger}
use olivechain.Ledger.Audit.{Problem, check_event, check_events, verify_chain}
use olivechain.Result.{ok, err, bind-ok, Result-cases, ok-injective}

module _ (F : Floats) (C : Crypto) (registry : Registry) where
  -- Each event names the hash of the one before, its signature verifies under the registered key of
  -- its actor, and its hash is the hash of what it holds.
  pub data IsChained : String → List Event → Type 0 where
    chain_end : {prev : String} → IsChained prev []
    chain_next :
        {prev : String} {e : Event} {es : List Event}
        → (org : Organization) → Registry.get e.actor_org registry ≡ ok org
        → e.prev_hash ≡ prev
        → C.verify_signature org.public_key (signing_body F e) e.signature ≡ true
        → e.event_hash ≡ chained_hash F C e
        → IsChained e.event_hash es
        → IsChained prev (e ∷ es)

  -- The checks on one event find nothing exactly when it fits.
  abbrev Fits : String → Event → Type 0
  Fits prev e =
      (org : Organization) × (Registry.get e.actor_org registry ≡ ok org)
      × (e.prev_hash ≡ prev)
      × (C.verify_signature org.public_key (signing_body F e) e.signature ≡ true)
      × (e.event_hash ≡ chained_hash F C e)

  check_event-Fits :
      (i : ℕ) (prev : String) (e : Event) → check_event F C registry i prev e ≡ ok [] → Fits prev e
  unfolding check_event
  check_event-Fits i prev e h = elim (Result-cases (Registry.get e.actor_org registry)) [
    | inr (x, unknown) ↦ absurd (ground arith)
    | inl (org, known) ↦ (
      org,
      known,
      ground (arith, eq_iff e.prev_hash prev),
      ground arith,
      ground (arith, eq_iff e.event_hash (chained_hash F C e)),
    )
  ]

  Fits-check_event :
      (i : ℕ) (prev : String) (e : Event) → Fits prev e → check_event F C registry i prev e ≡ ok []
  unfolding check_event
  Fits-check_event i prev e (org, known, follows, signed, hashed) =
      ground (arith, eq_iff e.prev_hash prev, eq_iff e.event_hash (chained_hash F C e))

  both_empty : (p q : List Problem) → p ++ q ≡ [] → (p ≡ []) × (q ≡ [])
  both_empty [] q h = (refl, h)
  both_empty (x ∷ p) q h = cc

  check_events-IsChained :
      (i : ℕ) (prev : String) (es : List Event)
      → check_events F C registry i prev es ≡ ok []
      → IsChained prev es
  unfolding check_events
  check_events-IsChained i prev [] h = chain_end
  check_events-IsChained i prev (e ∷ es) h =
      let (p, here, h₁) = bind-ok (check_event F C registry i prev e) _ [] h in
      let (q, later, h₂) = bind-ok (check_events F C registry (i + 1) e.event_hash es) _ [] h₁ in
      let (p_empty, q_empty) = both_empty p q (ok-injective h₂) in
      let (org, known, follows, signed, hashed) =
        check_event-Fits i prev e (here ∙ ap ok p_empty) in
      chain_next org known follows signed hashed
        (check_events-IsChained (i + 1) e.event_hash es (later ∙ ap ok q_empty))

  IsChained-check_events :
      (i : ℕ) (prev : String) (es : List Event)
      → IsChained prev es
      → check_events F C registry i prev es ≡ ok []
  unfolding check_events
  IsChained-check_events i prev [] c = refl
  IsChained-check_events i prev (e ∷ es) (chain_next org known follows signed hashed rest) =
      rw
        (
          Fits-check_event i prev e (org, known, follows, signed, hashed),
          IsChained-check_events (i + 1) e.event_hash es rest,
        )
        refl

-- The audit reports no problem exactly when the events form a sound chain from the genesis hash on.
pub verify_chain_iff :
    (F : Floats) (C : Crypto) (l : Ledger)
    → (verify_chain F C l ≡ ok (true, [])) ↔ IsChained F C l.registry genesis_hash l.events
unfolding verify_chain
verify_chain_iff F C l = (
  λ h.
      let (p, found, h₁) =
        bind-ok (check_events F C l.registry 0 genesis_hash l.events) _ (true, []) h in
      let none_found : p ≡ [] = ap (λ r. elim r [ ok x ↦ x.1 | err e ↦ p ]) h₁ in
      check_events-IsChained F C l.registry 0 genesis_hash l.events (found ∙ ap ok none_found),
  λ c. rw (IsChained-check_events F C l.registry 0 genesis_hash l.events c) refl,
)

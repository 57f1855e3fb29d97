-- ===== src/Ledger/Audit/Preserved.antt =====
-- A ledger that passes the audit still passes after `append`, and after `commit_prepared` of a
-- body whose signature verifies.
use olivechain.Base.{
  Bool, ℕ, ◌+◌, String, true, ◌≡◌, refl, sym, Option, List, [], ◌∷◌, ◌++◌, arith, length, get_last?,
  eq_refl,
}
use mathlib.Core.Path.{subst}
use native.Mathlib.Nat.{add-zero}
use olivechain.Crypto.{Crypto}
use olivechain.Json.{Floats}
use olivechain.Event.{Event, genesis_hash, signing_body, chained_hash}
use olivechain.Models.{EventType}
use olivechain.Registry
use olivechain.Registry.{Registry, Organization}
use olivechain.Result.{Result, ok, err, ◌>>=◌}
use olivechain.Ledger.{
  empty, Ledger, Body, Submission, of_body, head_hash, last_hash, append, commit_prepared,
}
use olivechain.Ledger.History.{contents, Grown, Wrote, append-Wrote, commit_prepared-Wrote}
use olivechain.Ledger.Admission.{
  Admitted, IsSigned, append-eq-land, prepare-Admitted, commit_prepared-eq-land, recheck-Admitted,
}
use olivechain.Ledger.Audit.{Problem, is_empty, check_event, check_events, verify_chain}

-- The hash that the next event has to name.
abbrev hash_after : String → List Event → String
hash_after h [] = h
hash_after h (e ∷ es) = hash_after e.event_hash es

hash_after-contents : (h : String) (es : List Event) → hash_after h (contents es) ≡ hash_after h es
hash_after-contents h [] = refl
hash_after-contents h (e ∷ es) = hash_after-contents e.event_hash es

last_hash-eq-hash_after :
    (e : Event) (es : List Event) → last_hash (get_last? (e ∷ es)) ≡ hash_after e.event_hash es
last_hash-eq-hash_after e [] = refl
last_hash-eq-hash_after e (x ∷ es) = last_hash-eq-hash_after x es

head_hash-eq-hash_after : (l : Ledger) → head_hash l ≡ hash_after genesis_hash l.events
unfolding head_hash
head_hash-eq-hash_after l = go l.events
  where
    go : (es : List Event) → last_hash (get_last? es) ≡ hash_after genesis_hash es
    go [] = refl
    go (e ∷ es) = last_hash-eq-hash_after e es

-- Two parts of a report are both empty exactly when the report is.
both_empty :
    (m n : Result (List Problem))
    → (m >>= λ p. n >>= λ q. ok (p ++ q)) ≡ ok []
    → (m ≡ ok []) × (n ≡ ok [])
both_empty (ok []) (ok q) h = (refl, h)
both_empty (ok (x ∷ p)) (ok q) h = cc
both_empty (ok p) (err e) h = cc
both_empty (err e) n h = cc

module _ (F : Floats) (C : Crypto) (registry : Registry) where
  check_events-contents :
      (i : ℕ) (prev : String) (es : List Event)
      → check_events F C registry i prev (contents es) ≡ check_events F C registry i prev es
  unfolding check_events chained_hash signing_body
  check_events-contents i prev [] = refl
  check_events-contents i prev (e ∷ es) = rw (check_events-contents (i + 1) e.event_hash es)

  check_events-snoc :
      (i : ℕ) (prev : String) (es : List Event) (ev : Event)
      → check_events F C registry i prev es ≡ ok []
      → check_event F C registry (i + length es) (hash_after prev es) ev ≡ ok []
      → check_events F C registry i prev (es ++ ev ∷ []) ≡ ok []
  unfolding check_events
  check_events-snoc i prev [] ev h g = rw ((rw add-zero at g)) refl
  check_events-snoc i prev (e ∷ es) ev h g =
      let (now, later) =
        both_empty (check_event F C registry i prev e)
          (check_events F C registry (i + 1) e.event_hash es) h in
      let here : check_event F C registry (i + 1 + length es) (hash_after e.event_hash es) ev
          ≡ ok [] =
        subst (λ k. check_event F C registry k (hash_after e.event_hash es) ev ≡ ok [])
          (omega arith) g in
      rw (now, check_events-snoc (i + 1) e.event_hash es ev later here) refl

  check_event_passes :
      (i : ℕ) (ev : Event) {org : Organization}
      → Registry.get ev.actor_org registry ≡ ok org
      → IsSigned F C org ev
      → ev.event_hash ≡ chained_hash F C ev
      → check_event F C registry i ev.prev_hash ev ≡ ok []
  unfolding check_event
  check_event_passes i ev known signed hashed = simp (known, eq_refl, signed, ← hashed)

module _ (F : Floats) (C : Crypto) where
  -- The audit reports no problem.
  abbrev pub IsAudited : Ledger → Type 0
  IsAudited l = verify_chain F C l ≡ ok (true, [])

  no_problems :
      (r : Result (List Problem))
      → ◌>>=◌ {B = Bool × List Problem} r (λ p. ok (is_empty p, p)) ≡ ok (true, [])
      → r ≡ ok []
  no_problems (ok []) h = refl
  no_problems (ok (x ∷ p)) h = cc
  no_problems (err e) h = cc

  IsAudited-check_events :
      (l : Ledger) → check_events F C l.registry 0 genesis_hash l.events ≡ ok [] → IsAudited l
  unfolding verify_chain
  IsAudited-check_events l h = rw h refl

  check_events-audited :
      (l : Ledger) → IsAudited l → check_events F C l.registry 0 genesis_hash l.events ≡ ok []
  unfolding verify_chain
  check_events-audited l h = no_problems (check_events F C l.registry 0 genesis_hash l.events) h

  Grown-IsAudited :
      {l l' : Ledger} {ev : Event} {t : EventType} {org : Organization}
      → Grown l ev l'
      → Admitted F C l t org ev
      → IsSigned F C org ev
      → IsAudited l
      → IsAudited l'
  Grown-IsAudited {l} {l'} {ev} g a s h = IsAudited-check_events l' (
      rw (g.registry, ← check_events-contents F C l.registry 0 genesis_hash l'.events, g.events)
        (check_events-snoc F C l.registry 0 genesis_hash (contents l.events) ev
          (rw (check_events-contents F C l.registry 0 genesis_hash l.events)
            (check_events-audited l h))
          (rw (hash_after-contents genesis_hash l.events, ← head_hash-eq-hash_after l, ← a.chained)
            (check_event_passes F C l.registry (0 + length (contents l.events)) ev a.registered s
              a.hashed))))

  -- Any write that lets only signed events in keeps the audit's verdict.
  write-IsAudited :
      (l : Ledger) (w : Result Event × Ledger)
      → Wrote l w
      → ((ev : Event)
          → w.0 ≡ ok ev
          → (t : EventType) × (org : Organization) × Admitted F C l t org ev × IsSigned F C org ev)
      → IsAudited l
      → IsAudited w.1
  write-IsAudited l (err e, l') same admitted h = subst IsAudited (sym same) h
  write-IsAudited l (ok ev, l') grown admitted h =
      let (t, org, a, s) = admitted ev refl in Grown-IsAudited grown a s h

  -- If the audit of a ledger reports no problem, neither does the audit after a call of `append`,
  -- whether the call succeeds or raises.
  pub append-IsAudited : (s : Submission) (l : Ledger) → IsAudited l → IsAudited (append F C s l).1
  append-IsAudited s l = write-IsAudited l (append F C s l) (append-Wrote F C s l) (λ ev e.
      let (org, checked, _) = append-eq-land F C s l e in
      let (a, g, _, _) = prepare-Admitted F C s l checked in (s.event_type, org, a, g))

  -- If the audit of a ledger reports no problem, neither does the audit after a call of
  -- `commit_prepared`, provided that the signature verifies under the actor's registered key.
  pub commit_prepared-IsAudited :
      (body : Body) (signature : String) (l : Ledger)
      → ((org : Organization)
          → Registry.get body.actor_org l.registry ≡ ok org
          → C.verify_signature org.public_key (signing_body F (of_body body)) signature ≡ true)
      → IsAudited l
      → IsAudited (commit_prepared F C body signature l).1
  commit_prepared-IsAudited body signature l verified =
      write-IsAudited l (commit_prepared F C body signature l)
        (commit_prepared-Wrote F C body signature l)
        (λ ev e.
          let (t, org, checked, _) = commit_prepared-eq-land F C body signature l e in
          let (a, c, _) = recheck-Admitted F C body signature l checked in
          (t, org, a, rw (c.signing, c.signed) (verified org (rw (← c.actor) a.registered))))

  pub IsAudited-empty : (r : Registry) (path : Option String) → IsAudited (empty r path)
  unfolding verify_chain
  IsAudited-empty r path = refl

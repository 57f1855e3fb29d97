-- ===== src/Ledger/Audit.antt =====
-- `verify_chain` of ledger.py: the hash chain, every signature, and every event's hash.
pub mod Preserved
pub mod Sound
use olivechain.Base.{ℕ, ◌+◌, String, Bool, true, false, not, List, [], ◌∷◌, ◌++◌, ◌==◌}
use olivechain.Crypto.{Crypto}
use olivechain.Json.{Floats}
use olivechain.Event.{Event, genesis_hash, signing_body, chained_hash}
use olivechain.Registry
use olivechain.Registry.{Registry}
use olivechain.Ledger.{Ledger}
use olivechain.Result.{Result, ok, ◌>>=◌}

-- The index and the id of an event, and what is wrong with it.
pub data Problem : Type 0 where
  broken_hash_chain invalid_signature tampered_content : ℕ → String → Problem

abbrev problem_if : Bool → Problem → List Problem
problem_if true p = p ∷ []
problem_if false p = []

module _ (F : Floats) (C : Crypto) (registry : Registry) where
  -- The checks on one event; `prev` is the hash of the event before.
  check_event : ℕ → String → Event → Result (List Problem)
  check_event i prev ev = do
    org ← Registry.get ev.actor_org registry
    ok (
        problem_if (not (ev.prev_hash == prev)) (broken_hash_chain i ev.event_id)
        ++ (problem_if (not (C.verify_signature org.public_key (signing_body F ev) ev.signature))
              (invalid_signature i ev.event_id)
            ++ problem_if (not (ev.event_hash == chained_hash F C ev))
                (tampered_content i ev.event_id)))

  check_events : ℕ → String → List Event → Result (List Problem)
  unfolding check_event
  check_events i prev [] = ok []
  check_events i prev (ev ∷ evs) = do
    problems ← check_event i prev ev
    later ← check_events (i + 1) ev.event_hash evs
    ok (problems ++ later)

abbrev pub is_empty {ℓ} : {A : Type ℓ} → List A → Bool
is_empty [] = true
is_empty (x ∷ xs) = false

module _ (F : Floats) (C : Crypto) where
  unfoldable pub verify_chain : Ledger → Result (Bool × List Problem)
  unfolding check_events
  verify_chain l = do
    problems ← check_events F C l.registry 0 genesis_hash l.events
    ok (is_empty problems, problems)

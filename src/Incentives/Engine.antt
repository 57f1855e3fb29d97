-- ===== src/Incentives/Engine.antt =====
-- The class `IncentiveEngine` of incentives.py.
use olivechain.Base.{ℕ, suc, String, false, none, List, [], ◌∷◌, Dict, map}
use olivechain.Base.Int.{pos}
use olivechain.Crypto.{Crypto}
use olivechain.Effects.{Exec, pure, reads, ◌>>=◌}
use olivechain.Event.{Event}
use olivechain.Json.{Value, Float, Floats, int, str, arr, boolean, to_items}
use olivechain.Models.{EventType}
use olivechain.Ledger.{Ledger, Submission, append}
use olivechain.Incentives.{Reward, due_rewards}

-- `IncentiveEngine`: the authority and its key, and what the clock and uuid4 return in each call.
pub record Engine : Type 0 where
  pub authority_org : String
  pub authority_key : String
  pub stamps : ℕ → Float × String

module _ (F : Floats) (C : Crypto) where
  submission : Engine → ℕ → EventType → String → Dict Value → Submission
  submission g n event_type subject_id payload = record {
    event_type = event_type;
    subject_id = subject_id;
    actor_org = g.authority_org;
    payload = payload;
    keypair = g.authority_key;
    evidence = [];
    timestamp = none;
    now = (g.stamps n).0;
    fresh_id = (g.stamps n).1;
  }

  unfoldable pub issue : Engine → ℕ → Reward → Exec Ledger Event
  unfolding submission
  issue g n d = append F C (
      submission g n EventType.reward_issued d.recipient (
        ("recipient", str d.recipient)
        ∷ ("amount", int (pos d.amount))
        ∷ ("reward_rule", str d.reward_rule)
        ∷ ("basis_events", arr (to_items (map str d.basis_events)))
        ∷ ("transferable", boolean false)
        ∷ []))

  issue_all : Engine → ℕ → List Reward → Exec Ledger (List Event)
  issue_all g n [] = pure []
  issue_all g n (d ∷ ds) = do e ← issue g n d; es ← issue_all g (suc n) ds; pure (e ∷ es)

  -- `run`, with the events in place of what is reported of them.
  unfoldable pub run : Float → Engine → Exec Ledger (List Event)
  unfolding issue_all
  run tolerance g = do due ← reads (due_rewards F tolerance); issue_all g 0 due

  unfoldable pub flag : Engine → String → String → String → Exec Ledger Event
  unfolding submission
  flag g subject_event rule detail = append F C (
      submission g 0 EventType.review_flag subject_event
        (("subject_event", str subject_event) ∷ ("rule", str rule) ∷ ("detail", str detail) ∷ []))

  unfoldable pub resolve : Engine → String → String → String → Exec Ledger Event
  unfolding submission
  resolve g flag_event decision rationale = append F C (
      submission g 0 EventType.review_resolution flag_event (
        ("flag_event", str flag_event)
        ∷ ("decision", str decision)
        ∷ ("rationale", str rationale)
        ∷ []))

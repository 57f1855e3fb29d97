-- ===== src/Incentives/Due.antt =====
-- What the gates of due_rewards ensure of every reward that is due.
use olivechain.Base.{ℕ, true, false, ◌≡◌, some, List, get_elem?}
use olivechain.Json.{Float, Floats}
use olivechain.Event.{Event}
use olivechain.Ledger.{Ledger, truthy_text}
use olivechain.Incentives.{
  RewardRule, rules_for, Reward, reward_for, already_rewarded, mass_balance_passes, quality_passes,
}
use olivechain.Incentives.Flags.{IsResolved}
use olivechain.Result.{ok}

module _ (F : Floats) (tolerance : Float) (l : Ledger) where
  -- The gates of the inner loop: the event has not been rewarded under the rule, and the last review
  -- flag that names it, if any does, has a resolution; its lot balances and its quality is high, where the rule asks for that.
  abbrev pub Gates : Event → RewardRule → Type 0
  Gates e r =
      (already_rewarded F l e.event_id r.rule_id ≡ ok false)
      × IsResolved l e.event_id
      × (r.requires_mass_balance ≡ true → mass_balance_passes F tolerance l e ≡ ok true)
      × (r.rule_id ≡ "quality_criteria" → quality_passes e ≡ true)

  -- A reward that the gates allow, for an event of the ledger that no correction supersedes.
  abbrev pub IsEarned : Reward → Type 0
  IsEarned d =
      (e : Event) × (i : ℕ) × (r : RewardRule) × (j : ℕ) × (get_elem? l.events i ≡ some e)
      × (truthy_text e.superseded_by ≡ false)
      × (get_elem? (rules_for e.event_type) j ≡ some r)
      × (d ≡ reward_for e r)
      × Gates e r

  -- The elements of the first list are elements of the second one.
  abbrev Within : {A : Type 0} → List A → List A → Type 0
  Within {A = A} xs ys =
      (x : A) (i : ℕ) → get_elem? xs i ≡ some x → (j : ℕ) × (get_elem? ys j ≡ some x)

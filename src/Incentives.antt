-- ===== src/Incentives.antt =====
-- incentives.py: the rules that make an event worth a reward, and the issuing of rewards.
pub mod Due
pub mod Engine
pub mod Flags
pub mod Tests
use olivechain.Base.{
  ℕ, suc, String, Bool, true, false, not, ◌&&◌, ◌||◌, Option, none, some, List, [], ◌∷◌, ◌++◌, map,
  Dict, lookup, any, filter, ◌==◌, if◌then◌else◌,
}
use olivechain.Base.Int.{ℤ, pos, ◌+ℤ◌}
use olivechain.Json.{Value, Float, Floats, int, str, arr, obj, boolean, nil, cons, null}
use olivechain.Json.Access.{
  item, get_or, truthy, hashable, is_text, find_key, put_key, text_in_value, to_int,
}
use olivechain.Event.{Event}
use olivechain.Models.{EventType, value}
use olivechain.Ledger.{Ledger, Submission, append, truthy_text}
use olivechain.Ledger.Queries.{iter_type}
use olivechain.MassBalance.{balanced, reconcile_residue}
use olivechain.Result.{Result, ok, err, type_error, ◌>>=◌, map_result, fold_result}

pub record RewardRule : Type 0 where
  pub rule_id : String
  pub description : String
  pub event_type : EventType
  pub amount : ℕ
  pub requires_mass_balance : Bool

abbrev rule : String → String → EventType → ℕ → Bool → RewardRule
rule rule_id description event_type amount requires_mass_balance = record {
  rule_id = rule_id;
  description = description;
  event_type = event_type;
  amount = amount;
  requires_mass_balance = requires_mass_balance;
}

-- REWARD_RULES
abbrev pub reward_rules : List RewardRule
reward_rules =
    rule "residue_delivery" "delivering a measured residue quantity to an authorized processor"
      EventType.residue_custody 10 false
    ∷ rule "quality_criteria" "meeting validated quality or sustainability criteria"
        EventType.lab_verification 15 false
    ∷ rule "soil_return" "returning recovered compost, biochar, or fertilizer to agricultural use"
        EventType.return_or_sale 20 true
    ∷ rule "verified_recovery"
        "producing independently verified renewable energy or recovered material"
        EventType.useful_output 25 true
    ∷ rule "prompt_records" "completing reliable records promptly" EventType.milling 5 false
    ∷ rule "circular_participation"
        "participating in packaging return, verified feedback, or other circular activities"
        EventType.consumer_verification 1 false
    ∷ []

-- `RULES_BY_EVENT.get(event_type, [])`
unfoldable pub rules_for : String → List RewardRule
rules_for event_type = filter (λ r. value r.event_type == event_type) reward_rules

pub record Reward : Type 0 where
  pub recipient : String
  pub amount : ℕ
  pub reward_rule : String
  pub rule_description : String
  pub basis_events : List String
  pub transferable : Bool

unfoldable pub reward_for : Event → RewardRule → Reward
reward_for e r = record {
  recipient = e.actor_org;
  amount = r.amount;
  reward_rule = r.rule_id;
  rule_description = r.description;
  basis_events = e.event_id ∷ [];
  transferable = false;
}

unfoldable pub quality_passes : Event → Bool
quality_passes e =
    let q = get_or null "quality_class" e.payload in
    is_text "extra_virgin" q || is_text "organic_extra_virgin" q

module _ (F : Floats) where
  -- One round of the loop of `_already_rewarded`: `and` looks at the basis only under the rule.
  pays : String → String → Event → Result Bool
  pays basis_event_id rule_id e = do
    r ← item "reward_rule" e.payload
    (if is_text rule_id r
        then item "basis_events" e.payload >>= text_in_value F basis_event_id
        else ok false)

  any_result : {A : Type 0} → (A → Result Bool) → List A → Result Bool
  any_result f [] = ok false
  any_result f (x ∷ xs) = f x >>= λ found. if found then ok true else any_result f xs

  unfoldable pub already_rewarded : Ledger → String → String → Result Bool
  unfolding pays any_result
  already_rewarded l basis_event_id rule_id =
      any_result (pays basis_event_id rule_id) (iter_type l EventType.reward_issued)

  -- The last flag of each event that has one.
  unfoldable pub flagged : Ledger → Result (List (Value × String))
  flagged l =
      fold_result
        (λ d e. item "subject_event" e.payload >>= hashable >>= λ k. ok (put_key F k e.event_id d))
        [] (iter_type l EventType.review_flag)

  unfoldable pub resolved : Ledger → Result (List Value)
  resolved l =
      map_result (λ e. item "flag_event" e.payload >>= hashable)
        (iter_type l EventType.review_resolution)

  unfoldable pub open_flags : Ledger → Result (List Value)
  unfolding flagged resolved
  open_flags l = do
    d ← flagged l
    done ← resolved l
    ok (map (λ f. f.0) (filter (λ f. not (any (is_text f.1) done)) d))

  -- The gate of the rules that need a balance: whether the lot that the event names balances. A
  -- value that is no text is the subject of no event, so that nothing is generated for it.
  unfoldable pub mass_balance_passes : Float → Ledger → Event → Result Bool
  mass_balance_passes tolerance l e =
      let id = get_or null "residue_id" e.payload in
      if truthy F id
      then elim id [
        | str residue_id ↦ do rec ← reconcile_residue F tolerance l residue_id; ok (balanced rec)
        | _ ↦ ok false
      ]
      else ok false

  -- The body of the inner loop: whether the event is due a reward under the rule.
  unfoldable pub is_due : Float → Ledger → List Value → Event → RewardRule → Result Bool
  is_due tolerance l flags e r = do
    before ← already_rewarded l e.event_id r.rule_id
    (if before then ok false else if any (is_text e.event_id) flags then ok false else (do
      passes ← (if r.requires_mass_balance then mass_balance_passes tolerance l e else ok true)
      ok (passes && (not (r.rule_id == "quality_criteria") || quality_passes e))))

  pub due_under : Float → Ledger → List Value → Event → List RewardRule → Result (List Reward)
  due_under tolerance l flags e [] = ok []
  due_under tolerance l flags e (r ∷ rs) = do
    due ← is_due tolerance l flags e r
    rest ← due_under tolerance l flags e rs
    ok (if due then reward_for e r ∷ rest else rest)

  pub due_of : Float → Ledger → List Value → List Event → Result (List Reward)
  unfolding due_under
  due_of tolerance l flags [] = ok []
  due_of tolerance l flags (e ∷ es) = do
    here ←
        (if truthy_text e.superseded_by
          then ok []
          else due_under tolerance l flags e (rules_for e.event_type))
    rest ← due_of tolerance l flags es
    ok (here ++ rest)

  unfoldable pub due_rewards : Float → Ledger → Result (List Reward)
  unfolding due_of
  due_rewards tolerance l = do flags ← open_flags l; due_of tolerance l flags l.events

  -- `IncentiveEngine.balances`
  unfoldable pub balances : Ledger → Result (List (Value × ℤ))
  balances l =
      fold_result
        (λ bal e. if truthy_text e.superseded_by then ok bal else (do
          recipient ← item "recipient" e.payload
          k ← hashable recipient
          a ← item "amount" e.payload
          n ← to_int F a
          ok (put_key F k (find_key F k (pos 0) bal +ℤ n) bal)))
        [] (iter_type l EventType.reward_issued)

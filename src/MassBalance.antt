-- ===== src/MassBalance.antt =====
-- massbalance.py: the reconciliation of one lot of residue.
use olivechain.Base.{
  String, Bool, true, false, not, ◌&&◌, List, [], ◌∷◌, ◌++◌, Dict, ◌==◌, if◌then◌else◌,
}
use olivechain.Base.Int.{pos}
use olivechain.Json.{Value, Float, Floats, int, arr, nil, null}
use olivechain.Json.Access.{
  item, get_or, truthy, to_float, elements, value_item, hashable, find_key, put_key,
}
use olivechain.Event.{Event}
use olivechain.Models.{EventType, value}
use olivechain.Ledger.{Ledger}
use olivechain.Ledger.Queries.{for_subject, payload_of}
use olivechain.Result.{Result, ok, ◌>>=◌, fold_result}

-- The text of an issue, and the numbers that are put into it.
abbrev pub Issue : Type 0
Issue = String × List Float

pub record Reconciliation : Type 0 where
  pub residue_id : String
  pub generated_kg : Float
  pub transferred_kg : Float
  pub accepted_kg : Float
  pub transformed_kg : Float
  pub rejected_kg : Float
  pub outputs : List (Value × Float)
  pub issues : List Issue

unfoldable pub balanced : Reconciliation → Bool
balanced r = elim r.issues [ [] ↦ true | i ∷ is ↦ false ]

abbrev pub is_type : EventType → Event → Bool
is_type t e = e.event_type == value t

module _ (F : Floats) where
  unfoldable pub recovery_pct : Reconciliation → Float
  recovery_pct r =
      if F.le r.generated_kg F.zero
      then F.zero
      else F.round2 (F.div (F.mul (F.of_int (pos 100)) r.transformed_kg) r.generated_kg)

  unfoldable pub start : String → Reconciliation
  start residue_id = record {
    residue_id = residue_id;
    generated_kg = F.zero;
    transferred_kg = F.zero;
    accepted_kg = F.zero;
    transformed_kg = F.zero;
    rejected_kg = F.zero;
    outputs = [];
    issues = [];
  }

  -- `float(payload[key])`
  unfoldable pub weight : String → Dict Value → Result Float
  weight key p = item key p >>= to_float F

  -- One output of a valorization.
  add_output : List (Value × Float) → Value → Result (List (Value × Float))
  add_output outputs o = do
    key ← value_item "output_type" o
    q ← value_item "quantity" o
    x ← to_float F q
    k ← hashable key
    ok (put_key F k (F.add (find_key F k (F.of_int (pos 0)) outputs) x) outputs)

  -- The body of the loop, on an event and its effective payload.
  unfoldable pub account : Reconciliation → Event → Dict Value → Result Reconciliation
  unfolding add_output
  account r e p =
      if is_type EventType.residue_generation e
      then (do w ← weight "weight_kg" p; ok (record r { generated_kg = F.add r.generated_kg w }))
      else if is_type EventType.residue_custody e
      then (do
        w ← weight "weight_kg" p
        let moved = record r { transferred_kg = F.add r.transferred_kg w }
        ok (
            if truthy F (get_or null "accepted" p)
            then record moved { accepted_kg = F.add r.accepted_kg w }
            else moved))
      else if is_type EventType.valorization e
      then (do
        used ← weight "input_kg" p
        lost ← to_float F (get_or (int (pos 0)) "rejected_kg" p)
        made ← elements (get_or (arr nil) "outputs" p)
        outputs ← fold_result add_output r.outputs made
        ok (record r {
          transformed_kg = F.add r.transformed_kg used;
          rejected_kg = F.add r.rejected_kg lost;
          outputs = outputs;
        }))
      else ok r

  unfoldable pub max : Float → Float → Float
  max a b = if F.lt a b then b else a

  unfoldable pub within : Float → Float → Float → Bool
  within tolerance a b =
      if F.eq (max a b) F.zero then true else F.le (F.div (F.abs (F.sub a b)) (max a b)) tolerance

  abbrev issue_if : Bool → Issue → List Issue
  issue_if c i = if c then i ∷ [] else []

  -- `bool(x)`
  abbrev pub nonzero : Float → Bool
  nonzero x = not (F.eq x F.zero)

  unfoldable pub accounted_kg : Reconciliation → Float
  accounted_kg r = F.add r.transformed_kg r.rejected_kg

  -- The issues, in the order in which they are appended.
  unfoldable pub issues_of : Float → Reconciliation → List Issue
  issues_of tolerance r =
      issue_if (F.eq r.generated_kg F.zero) ("no residue generation recorded", [])
      ++ issue_if
          (nonzero r.transferred_kg && not (within tolerance r.generated_kg r.transferred_kg))
          (
            "transfer/generation mismatch: generated {}kg, transferred {}kg",
            r.generated_kg ∷ r.transferred_kg ∷ [],
          )
      ++ issue_if (nonzero r.accepted_kg && not (within tolerance r.transferred_kg r.accepted_kg)) (
        "acceptance mismatch: transferred {}kg, accepted {}kg",
        r.transferred_kg ∷ r.accepted_kg ∷ [],
      )
      ++ issue_if
          (nonzero (accounted_kg r) && not (within tolerance r.accepted_kg (accounted_kg r)))
          (
            "transformation mismatch: accepted {}kg, transformed {}kg, rejected {}kg, accounted {}kg",
            r.accepted_kg ∷ r.transformed_kg ∷ r.rejected_kg ∷ accounted_kg r ∷ [],
          )
      ++ issue_if (F.eq (accounted_kg r) F.zero && F.lt F.zero r.accepted_kg)
          ("residue accepted but no valorization recorded", [])

  unfoldable pub account_all : Ledger → Reconciliation → List Event → Result Reconciliation
  unfolding account
  account_all l = fold_result (λ r e. payload_of l e >>= account r e)

  unfoldable pub reconcile_residue : Float → Ledger → String → Result Reconciliation
  reconcile_residue tolerance l residue_id = do
    r ← account_all l (start residue_id) (for_subject l residue_id false)
    ok (record r { issues = issues_of tolerance r })

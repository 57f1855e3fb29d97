-- ===== src/Ledger/Queries.antt =====
-- The queries of ledger.py.
pub mod Corrections
use olivechain.Base.{
  ℕ, zero, suc, String, Bool, true, false, Option, none, some, List, [], ◌∷◌, Dict, lookup, update,
  is_some, ◌==◌, not, filter, length, get_elem?,
}
use olivechain.Json.{Value, Fields, Items, null, boolean, int, float, str, arr, obj, of_fields}
use olivechain.Json.Access.{read_pairs}
use olivechain.Event.{Event}
use olivechain.Models.{EventType, value}
use olivechain.Ledger.{Ledger, truthy_text}
use olivechain.Result.{Result, ok, err, diverges, key_error, type_error, or_raise, ◌>>=◌}

-- `ledger.get(event_id)`: the object that `_by_id` refers to.
unfoldable pub get : String → Ledger → Result Event
get id l = do
  i ← or_raise (lookup id l.by_id) (key_error "{}" (id ∷ []))
  or_raise (get_elem? l.events i) (key_error "{}" (id ∷ []))

unfoldable pub for_subject : Ledger → String → Bool → List Event
for_subject l subject_id true = filter (λ e. e.subject_id == subject_id) l.events
for_subject l subject_id false =
    filter (λ e. not (is_some e.superseded_by)) (filter (λ e. e.subject_id == subject_id) l.events)

unfoldable pub iter_type : Ledger → EventType → List Event
unfolding value
iter_type l t = filter (λ e. e.event_type == value t) l.events

-- A key that is no text is left out: no part of the program looks one up.
text_pairs : List (Value × Value) → Dict Value
text_pairs [] = []
text_pairs ((str k, v) ∷ pairs) = (k, v) ∷ text_pairs pairs
text_pairs ((k, v) ∷ pairs) = text_pairs pairs

-- `merged.update(corr.payload.get("corrected_payload", {}))`
unfoldable pub merge_correction : Dict Value → Option Value → Result (Dict Value)
unfolding read_pairs text_pairs
merge_correction payload none = ok payload
merge_correction payload (some (obj fs)) = ok (update payload (of_fields fs))
merge_correction payload (some v) = read_pairs v >>= λ pairs. ok (update payload (text_pairs pairs))

-- The loop of `effective_payload`: on fuel, since nothing in the loop itself ends it. `none` means
-- that the fuel ran out.
unfoldable pub walk_corrections : Ledger → ℕ → Event → Option (Result (Dict Value))
unfolding merge_correction of_fields
walk_corrections l zero cur = none
walk_corrections l (suc fuel) cur = elim cur.superseded_by [
  | none ↦ some (ok cur.payload)
  | some id ↦ elim (id == "") [
    | true ↦ some (ok cur.payload)
    | false ↦ elim (get id l) [
      | err e ↦ some (err e)
      | ok corr ↦ elim (merge_correction cur.payload (lookup "corrected_payload" corr.payload)) [
        | err e ↦ some (err e)
        | ok merged ↦ walk_corrections l fuel (record corr { payload = merged })
      ]
    ]
  ]
]

-- One round for each event is enough in a well-formed ledger.
unfoldable pub effective_payload : Ledger → Event → Option (Result (Dict Value))
effective_payload l event = walk_corrections l (suc (length l.events)) event

-- `effective_payload(event)` in the functions that go on with its value.
unfoldable pub payload_of : Ledger → Event → Result (Dict Value)
payload_of l event = elim (effective_payload l event) [ none ↦ err diverges | some r ↦ r ]

-- ===== src/Anomaly.antt =====
-- anomaly.py: the four rules of `scan`, whose findings go to review.
pub mod Duplicates
pub mod Tests
use olivechain.Base.{
  ℕ, String, Bool, true, false, not, ◌&&◌, ◌||◌, Option, none, some, List, [], ◌∷◌, ◌++◌, map, Dict,
  is_some, eqb, ◌==◌, if◌then◌else◌,
}
use olivechain.Base.Int.{pos}
use olivechain.Base.Sort.{sort_by}
use olivechain.Json.{Value, Float, Floats, int, str, arr, obj, nil, null, of_fields}
use olivechain.Json.Dump.{canonical_json}
use olivechain.Json.Access.{item, get_or, to_float, elements, hashable, same_key, put_key}
use olivechain.Event.{Event}
use olivechain.Models.{EventType, value}
use olivechain.Ledger.{Ledger, truthy_text}
use olivechain.Ledger.Queries.{iter_type, payload_of}
use olivechain.Result.{Result, ok, err, attribute_error, ◌>>=◌, map_result, fold_result}

-- The detail's template, and the values that are put into it.
pub record Finding : Type 0 where
  pub rule : String
  pub subject_event : String
  pub detail : String × List Value

abbrev pub finding : String → String → String → List Value → Finding
finding rule subject_event template values = record {
  rule = rule;
  subject_event = subject_event;
  detail = (template, values);
}

-- A rule over events of one type: each of them gives at most one finding.
each : (Event → Result (List Finding)) → List Event → Result (List Finding)
each f [] = ok []
each f (e ∷ es) = do
  here ← (if truthy_text e.superseded_by then ok [] else f e)
  rest ← each f es
  ok (here ++ rest)

module _ (F : Floats) where
  -- `not (lo <= ratio <= hi)`, with the bounds in thousandths
  abbrev outside : ℕ → ℕ → Float → Bool
  outside lo hi ratio = not (F.le (F.of_milli lo) ratio && F.le ratio (F.of_milli hi))

  yield_finding : Ledger → Event → Result (List Finding)
  yield_finding l ev = do
    p ← payload_of l ev
    received ← to_float F (get_or (int (pos 0)) "received_kg" p)
    oil_l ← to_float F (get_or (int (pos 0)) "oil_yield_l" p)
    (if F.le received F.zero
        then ok []
        else if outside 50 300 (F.div oil_l received)
        then ok (
            finding "implausible_oil_yield" ev.event_id
              "{} l oil from {} kg olives (ratio {} l/kg outside [0.05, 0.3])"
              (Value.float oil_l ∷ Value.float received ∷ Value.float (F.div oil_l received) ∷ [])
            ∷ [])
        else ok [])

  unfoldable pub implausible_yields : Ledger → Result (List Finding)
  unfolding each yield_finding
  implausible_yields l = each (yield_finding l) (iter_type l EventType.milling)

  -- `float(r.get("weight_kg", 0))`
  residue_weight : Value → Result Float
  residue_weight (obj fs) = to_float F (get_or (int (pos 0)) "weight_kg" (of_fields fs))
  residue_weight _ = err (attribute_error "object has no attribute 'get'" [])

  residue_finding : Ledger → Event → Result (List Finding)
  unfolding residue_weight
  residue_finding l ev = do
    p ← payload_of l ev
    received ← to_float F (get_or (int (pos 0)) "received_kg" p)
    declared ← elements (get_or (arr nil) "residues_declared" p)
    total ← fold_result (λ x r. residue_weight r >>= λ y. ok (F.add x y)) F.zero declared
    (if F.le received F.zero || F.eq total F.zero
        then ok []
        else if outside 200 900 (F.div total received)
        then ok (
            finding "implausible_residue_ratio" ev.event_id
              "{} kg residues from {} kg olives (ratio {} outside [0.2, 0.9])"
              (Value.float total ∷ Value.float received ∷ Value.float (F.div total received) ∷ [])
            ∷ [])
        else ok [])

  unfoldable pub residue_ratio : Ledger → Result (List Finding)
  unfolding each residue_finding
  residue_ratio l = each (residue_finding l) (iter_type l EventType.milling)

  -- `tuple(sorted((k, str(v)) for k, v in payload.items()))`
  abbrev pub Key : Type 0
  Key = String × String × String × List (String × String)

  pub key_of : Event → Key
  key_of ev = (
    ev.event_type,
    ev.subject_id,
    ev.actor_org,
    sort_by (λ e. e.0) (map (λ e. (e.0, F.to_text e.1)) ev.payload),
  )

  same_entries : List (String × String) → List (String × String) → Bool
  same_entries [] [] = true
  same_entries ((k, v) ∷ d) ((j, w) ∷ e) = k == j && v == w && same_entries d e
  same_entries _ _ = false

  pub same : Key → Key → Bool
  unfolding same_entries
  same (t, s, a, p) (t', s', a', p') = t == t' && s == s' && a == a' && same_entries p p'

  pub first_of : Key → List (Key × String) → Option String
  unfolding same
  first_of k [] = none
  first_of k ((j, id) ∷ seen) = if same j k then some id else first_of k seen

  pub duplicates : List (Key × String) → List Event → List Finding
  unfolding key_of first_of
  duplicates seen [] = []
  duplicates seen (ev ∷ evs) =
      let k = key_of ev in
      let after = seen ++ (k, ev.event_id) ∷ [] in
      let skipped = duplicates seen evs in
      let added = duplicates after evs in
      if ev.event_type == value EventType.consumer_verification
        || ev.event_type == value EventType.correction
      then skipped
      else elim (first_of k seen) [
        | none ↦ added
        | some id ↦
            if not (is_some ev.superseded_by)
            then finding "duplicate_record" ev.event_id "duplicates event {}" (str id ∷ [])
              ∷ skipped
            else skipped
      ]

  unfoldable pub duplicate_records : Ledger → List Finding
  unfolding duplicates
  duplicate_records l = duplicates [] l.events

  same_bytes : List ℕ → List ℕ → Bool
  same_bytes [] [] = true
  same_bytes (b ∷ bs) (c ∷ cs) = eqb b c && same_bytes bs cs
  same_bytes _ _ = false

  -- `v == w`; lists and dicts are compared by what json writes for them.
  same_value : Value → Value → Bool
  unfolding same_bytes
  same_value v w = same_key F v w || same_bytes (canonical_json F v) (canonical_json F w)

  -- `holders.get(key)`
  unfoldable pub holder : Value → List (Value × Value) → Option Value
  holder k [] = none
  holder k ((j, w) ∷ d) = if same_key F j k then some w else holder k d

  -- `current is not None and frm != current`
  conflicts : Option Value → Value → Bool
  unfolding same_value
  conflicts none from_org = false
  conflicts (some null) from_org = false
  conflicts (some current) from_org = not (same_value from_org current)

  custody_finding : Event → Value → Value → Option Value → List Finding
  unfolding conflicts
  custody_finding ev lot from_org current =
      if conflicts current from_org
      then finding "conflicting_custody" ev.event_id
          "{}: transfer claimed from {} but current holder is {}"
          (lot ∷ from_org ∷ (elim current [ none ↦ null | some c ↦ c ]) ∷ [])
        ∷ []
      else []

  -- The loop over the events that stand and record a custody; `holders` maps a lot to its holder.
  custodies : Ledger → List (Value × Value) → List Event → Result (List Finding)
  unfolding custody_finding
  custodies l holders [] = ok []
  custodies l holders (ev ∷ evs) =
      elim (not (ev.event_type == value EventType.residue_custody)
        || truthy_text ev.superseded_by) [
          | true ↦ custodies l holders evs
          | false ↦ do
            p ← payload_of l ev
            lot ← item "residue_id" p
            from_org ← item "from_org" p
            to_org ← item "to_org" p
            key ← hashable lot
            rest ← custodies l (put_key F key to_org holders) evs
            ok (custody_finding ev lot from_org (holder key holders) ++ rest)
        ]

  unfoldable pub conflicting_custody : Ledger → Result (List Finding)
  unfolding custodies
  conflicting_custody l = custodies l [] l.events

  unfoldable pub scan : Ledger → Result (List Finding)
  scan l = do
    yields ← implausible_yields l
    custody ← conflicting_custody l
    ratios ← residue_ratio l
    ok (yields ++ (duplicate_records l ++ (custody ++ ratios)))

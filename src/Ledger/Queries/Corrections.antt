-- ===== src/Ledger/Queries/Corrections.antt =====
-- `effective_payload` in a well-formed ledger: its loop ends.
use olivechain.Base.{
  ℕ, zero, suc, ◌+◌, ◌≤◌, String, ◌≡◌, refl, sym, ◌∙◌, inl, inr, some, Dict, lookup, arith, ◌==◌,
  length, get_elem?, lt_of_get_elem?, Bool-cases, Option-cases,
}
use olivechain.Json.{Value}
use olivechain.Event.{Event}
use olivechain.Result.{Result, ok, err, Result-cases}
use olivechain.Ledger.{Ledger}
use olivechain.Ledger.WellFormed.{IsWellFormed}
use olivechain.Ledger.Queries.{get, merge_correction, walk_corrections, effective_payload}

get-at :
    (l : Ledger) (id : String) {j : ℕ} {e : Event}
    → lookup id l.by_id ≡ some j
    → get_elem? l.events j ≡ some e
    → get id l ≡ ok e
unfolding get
get-at l id found at = rw (found, at)

module _ (l : Ledger) (v : IsWellFormed l) where
  -- From an event at position `i`, as many rounds are enough as there are events from `i` on.
  walk-total :
      (fuel i : ℕ) (cur e : Event)
      → get_elem? l.events i ≡ some e
      → cur.superseded_by ≡ e.superseded_by
      → length l.events ≤ i + fuel
      → (r : Result (Dict Value)) × (walk_corrections l fuel cur ≡ some r)
  unfolding walk_corrections
  walk-total zero i cur e at same enough = absurd (omega (arith, lt_of_get_elem? l.events i at))
  walk-total (suc fuel) i cur e at same enough = elim (Option-cases cur.superseded_by) [
    | inl last ↦ (ok cur.payload, ground arith)
    | inr (id, marked) ↦ elim (Bool-cases (id == "")) [
      | inl empty ↦ (ok cur.payload, ground arith)
      | inr named ↦
          let (j, found, later) = v.forward i e id at (sym same ∙ marked) in
          let (corr, there, _) = v.indexed id j found in
          let known : get id l ≡ ok corr = get-at l id found there in
          elim (Result-cases
            (merge_correction cur.payload (lookup "corrected_payload" corr.payload))) [
              | inr (x, refused) ↦ (err x, ground arith)
              | inl (merged, done) ↦
                  let (r, e') =
                    walk-total fuel j (record corr { payload = merged }) corr there refl
                      (omega arith) in
                  (r, ground arith)
            ]
    ]
  ]

  -- In a well-formed ledger the walk along the corrections of any of its events ends.
  pub effective_payload-total :
      (i : ℕ) (e : Event)
      → get_elem? l.events i ≡ some e
      → (r : Result (Dict Value)) × (effective_payload l e ≡ some r)
  unfolding effective_payload
  effective_payload-total i e at = walk-total (suc (length l.events)) i e e at refl (omega arith)

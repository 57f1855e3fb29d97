-- ===== src/Ledger/Tests.antt =====
-- The ledger of a small cooperative: a run of the code, and the theorems at its states.
use mathlib.Core.Path.{subst}
use olivechain.Base.{
  true, ◌≡◌, refl, sym, ◌∙◌, ◌==◌, ◌<>◌, ◌↔◌, none, some, lookup, insert, [], ◌∷◌, get_elem?, Dict,
}
use olivechain.Event.{Event, genesis_hash, signing_body, chained_hash}
use olivechain.Json.{Value, to_fields, to_items}
use olivechain.Json.Dump.{canonical_json, encode}
use olivechain.Json.Access.{item}
use olivechain.Models.{
  EventType, is_correction, of_value, role_in, permissions, required_fields, value,
}
use olivechain.Registry
use olivechain.Registry.{Organization, has_role_name}
use olivechain.Result.{Result, ok, err, permission_error, ok-injective}
use olivechain.World.{
  floats, crypto, crypto-IsSound, farm, registry, path, start, cultivation, correction,
  harvest_body, farm_signature,
}
use olivechain.Ledger.{
  Ledger, append, commit_prepared, head_hash, of_body, prepare, land, store, supersede, correctable,
  mark, find_target, missing_fields, recheck,
}
use olivechain.Ledger.Runs.{
  Reach, appends, commits, here, next, audit_after_any_run, restart_after_any_run,
}
use olivechain.Ledger.Load.{load}
use olivechain.Ledger.Audit.{verify_chain}
use olivechain.Ledger.Audit.Sound.{IsChained, verify_chain_iff}
use olivechain.Ledger.Admission.{Admitted, IsSigned}
use olivechain.Ledger.Admission.Admits.{MayCorrect, append-Admitted, append-succeeds}
use olivechain.Ledger.History.{Wrote, append-Wrote, commit_prepared-Wrote}
use olivechain.Ledger.Queries.{effective_payload}
use olivechain.Ledger.Queries.Corrections.{effective_payload-total}
use olivechain.Ledger.WellFormed.{IsWellFormed, IsWellFormed-empty}
use olivechain.Ledger.WellFormed.Writes.{append-IsWellFormed, commit_prepared-IsWellFormed}

abbrev after_cultivation : Ledger
after_cultivation = (append floats crypto cultivation start).1

abbrev after_harvest : Ledger
after_harvest =
    (commit_prepared floats crypto (harvest_body (head_hash after_cultivation)) farm_signature
      after_cultivation).1

abbrev after_correction : Ledger
after_correction = (append floats crypto correction after_harvest).1

-- The whole run is computed: what each call returns, and that the ids are new.
cultivation-IsFresh : lookup "e1" start.by_id ≡ none
unfolding lookup
cultivation-IsFresh = refl

correction-IsFresh : lookup "e3" after_harvest.by_id ≡ none
unfolding lookup insert append prepare land store supersede correctable mark find_target
    missing_fields commit_prepared recheck Registry.get head_hash chained_hash signing_body
    canonical_json of_value role_in permissions required_fields value has_role_name to_fields
    to_items encode
correction-IsFresh = refl

correction-Returns : (ev : Event) × ((append floats crypto correction after_harvest).0 ≡ ok ev)
unfolding lookup insert append prepare land store supersede correctable mark find_target
    missing_fields commit_prepared recheck Registry.get head_hash chained_hash signing_body
    canonical_json of_value role_in permissions required_fields value has_role_name to_fields
    to_items encode
correction-Returns = (_, refl)

-- A farm may not submit a milling record, and an unknown organisation may not submit anything.
refused :
    (append floats crypto (record cultivation { event_type = EventType.milling }) start).0
    ≡ err (permission_error "{} may not submit {}" ("farm" ∷ "milling" ∷ []))
unfolding lookup insert append prepare land store supersede correctable mark find_target
    missing_fields commit_prepared recheck Registry.get head_hash chained_hash signing_body
    canonical_json of_value role_in permissions required_fields value has_role_name to_fields
    to_items encode
refused = refl

farm-IsRegistered : Registry.get "farm" registry ≡ ok farm
unfolding Registry.get lookup
farm-IsRegistered = refl

harvest-IsSigned :
    (org : Organization)
    → Registry.get "farm" registry ≡ ok org
    → crypto.verify_signature org.public_key
        (signing_body floats (of_body (harvest_body (head_hash after_cultivation))))
        farm_signature
      ≡ true
harvest-IsSigned org known =
    let same : farm ≡ org = ok-injective (sym farm-IsRegistered ∙ known) in
    subst (λ o. (farm_signature == (o.public_key <> "-signature")) ≡ true) same refl

run : Reach floats crypto start after_correction
unfolding append prepare land Registry.get lookup role_in permissions required_fields
run =
    next
      (next (next here (appends cultivation start cultivation-IsFresh)) (
        commits (harvest_body (head_hash after_cultivation)) farm_signature after_cultivation
          harvest-IsSigned))
      (appends correction after_harvest correction-IsFresh)

audit_after_any_run_example : verify_chain floats crypto after_correction ≡ ok (true, [])
audit_after_any_run_example = audit_after_any_run floats crypto registry path refl run

restart_after_any_run_example :
    load after_correction.registry after_correction.path after_correction.file ≡ ok after_correction
restart_after_any_run_example = restart_after_any_run floats crypto registry path refl run

verify_chain_iff_example :
    (verify_chain floats crypto after_correction ≡ ok (true, []))
    ↔ IsChained floats crypto after_correction.registry genesis_hash after_correction.events
verify_chain_iff_example = verify_chain_iff floats crypto after_correction

append-Admitted_example :
    (org : Organization) × Admitted floats crypto after_harvest EventType.correction org
      correction-Returns.0
    × IsSigned floats crypto org correction-Returns.0
    × (is_correction EventType.correction ≡ true
        → (v : Value) × (item "supersedes_event" correction.payload ≡ ok v)
          × MayCorrect after_harvest v org correction-Returns.0.actor_org)
append-Admitted_example =
    append-Admitted floats crypto correction after_harvest correction-Returns.1

append-Wrote_example : Wrote after_harvest (append floats crypto correction after_harvest)
append-Wrote_example = append-Wrote floats crypto correction after_harvest

commit_prepared-Wrote_example : Wrote after_cultivation (
    commit_prepared floats crypto
      (harvest_body (head_hash after_cultivation))
      farm_signature
      after_cultivation)
commit_prepared-Wrote_example =
    commit_prepared-Wrote floats crypto (harvest_body (head_hash after_cultivation)) farm_signature
      after_cultivation

append-IsWellFormed_example : IsWellFormed (append floats crypto cultivation start).1
append-IsWellFormed_example =
    append-IsWellFormed floats crypto cultivation start cultivation-IsFresh
      (IsWellFormed-empty registry path)

after_cultivation-IsWellFormed : IsWellFormed after_cultivation
after_cultivation-IsWellFormed =
    append-IsWellFormed floats crypto cultivation start cultivation-IsFresh
      (IsWellFormed-empty registry path)

commit_prepared-IsWellFormed_example : IsWellFormed after_harvest
commit_prepared-IsWellFormed_example =
    commit_prepared-IsWellFormed floats crypto (harvest_body (head_hash after_cultivation))
      farm_signature after_cultivation after_cultivation-IsWellFormed

after_correction-IsWellFormed : IsWellFormed after_correction
after_correction-IsWellFormed =
    append-IsWellFormed floats crypto correction after_harvest correction-IsFresh (
      commit_prepared-IsWellFormed floats crypto (harvest_body (head_hash after_cultivation))
        farm_signature after_cultivation after_cultivation-IsWellFormed)

-- The corrected event, which the correction's id marks.
corrected-IsMarked :
    (e : Event) × (get_elem? after_correction.events 0 ≡ some e) × (e.superseded_by ≡ some "e3")
unfolding lookup insert append prepare land store supersede correctable mark find_target
    missing_fields commit_prepared recheck Registry.get head_hash chained_hash signing_body
    canonical_json of_value role_in permissions required_fields value has_role_name to_fields
    to_items encode
corrected-IsMarked = (_, refl, refl)

effective_payload-total_example :
    (r : Result (Dict Value)) × (effective_payload after_correction corrected-IsMarked.0 ≡ some r)
effective_payload-total_example =
    effective_payload-total after_correction after_correction-IsWellFormed 0 corrected-IsMarked.0
      corrected-IsMarked.1

append-succeeds_example : (ev : Event) × ((append floats crypto cultivation start).0 ≡ ok ev)
unfolding missing_fields required_fields permissions role_in lookup
append-succeeds_example =
    append-succeeds floats crypto cultivation start farm crypto-IsSound farm-IsRegistered refl refl
      refl refl

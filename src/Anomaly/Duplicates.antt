-- ===== src/Anomaly/Duplicates.antt =====
-- What a finding of a duplicated record means.
use mathlib.Core.Path.{subst}
use olivechain.Base.{
  ℕ, suc, ◌+◌, ◌<◌, String, true, not, ◌||◌, ◌≡◌, refl, sym, ap, ◌∙◌, inl, inr, Option, none, some,
  is_some, List, [], ◌∷◌, ◌++◌, All, get_elem?, get_elem?-snoc_cases, Bool-cases, if◌then◌else◌,
  arith, ◌==◌,
}
use olivechain.Base.Filter.{if-elim}
use olivechain.Event.{Event}
use olivechain.Json.{Floats, str}
use olivechain.Ledger.{Ledger}
use olivechain.Models.{EventType, value}
use olivechain.Anomaly.{
  Finding, finding, Key, key_of, same, first_of, duplicates, duplicate_records,
}

module _ (F : Floats) (l : Ledger) where
  -- An event that stands, and that an earlier event of the ledger has the key of: the type, the
  -- subject, the actor and the payload as text.
  abbrev pub IsDuplicate : Finding → Type 0
  IsDuplicate f =
      (i j : ℕ) × (a b : Event) × (i < j)
      × (get_elem? l.events i ≡ some a)
      × (get_elem? l.events j ≡ some b)
      × (same F (key_of F a) (key_of F b) ≡ true)
      × (b.superseded_by ≡ none)
      × (f ≡ finding "duplicate_record" b.event_id "duplicates event {}" (str a.event_id ∷ []))

  -- What has been seen are keys and ids of the first events.
  abbrev AreSeen : ℕ → List (Key F × String) → Type 0
  AreSeen n seen =
      (k : Key F) (id : String) (m : ℕ)
      → get_elem? seen m ≡ some (k, id)
      → (i : ℕ) × (a : Event) × (i < n)
        × (get_elem? l.events i ≡ some a)
        × (k ≡ key_of F a)
        × (id ≡ a.event_id)

  first_of-same :
      (k : Key F) (seen : List (Key F × String)) (id : String)
      → first_of F k seen ≡ some id
      → (j : Key F) × (m : ℕ) × (get_elem? seen m ≡ some (j, id)) × (same F j k ≡ true)
  unfolding first_of
  first_of-same k [] id h = cc
  first_of-same k ((j, x) ∷ seen) id h = elim (Bool-cases (same F j k)) [
    | inl yes_same ↦ (
      j,
      0,
      ap (λ o. elim o [ none ↦ some (j, x) | some y ↦ some (j, y) ])
          (sym (ap (λ b. if b then some x else first_of F k seen) yes_same) ∙ h),
      yes_same,
    )
    | inr other ↦
        let (j', m, at, found) =
          first_of-same k seen id
            (sym (ap (λ b. if b then some x else first_of F k seen) other) ∙ h) in
        (j', suc m, at, found)
  ]

  AreSeen-later : (n : ℕ) (seen : List (Key F × String)) → AreSeen n seen → AreSeen (n + 1) seen
  AreSeen-later n seen s k id m at =
      let (i, a, below, here, same_key, same_id) = s k id m at in
      (i, a, omega (arith, below), here, same_key, same_id)

  AreSeen-added :
      (n : ℕ) (seen : List (Key F × String)) (e : Event)
      → AreSeen n seen
      → get_elem? l.events n ≡ some e
      → AreSeen (n + 1) (seen ++ (key_of F e, e.event_id) ∷ [])
  AreSeen-added n seen e s here k id m at =
      elim (get_elem?-snoc_cases seen (key_of F e, e.event_id) m at) [
        | inl old ↦ AreSeen-later n seen s k id m old
        | inr (last, new) ↦ (n, e, omega arith, here, ap (λ p. p.0) new, ap (λ p. p.1) new)
      ]

  finding-IsDuplicate :
      (n : ℕ) (seen : List (Key F × String)) (e : Event) (id : String)
      → AreSeen n seen
      → get_elem? l.events n ≡ some e
      → first_of F (key_of F e) seen ≡ some id
      → e.superseded_by ≡ none
      → IsDuplicate (finding "duplicate_record" e.event_id "duplicates event {}" (str id ∷ []))
  finding-IsDuplicate n seen e id s here found stands =
      let (j, m, at, alike) = first_of-same (key_of F e) seen id found in
      let (i, a, below, there, same_key, same_id) = s j id m at in
      (
        i,
        n,
        a,
        e,
        below,
        there,
        here,
        subst (λ k. same F k (key_of F e) ≡ true) same_key alike,
        stands,
        ap (λ x. finding "duplicate_record" e.event_id "duplicates event {}" (str x ∷ [])) same_id,
      )

  -- The events that are still to come.
  abbrev AreNext : ℕ → List Event → Type 0
  AreNext n evs =
      (m : ℕ) (e : Event) → get_elem? evs m ≡ some e → get_elem? l.events (n + m) ≡ some e

  of_found :
      (found : Option String) (xs ys : List Finding) (id : String) (mark : Option String)
      → All IsDuplicate xs
      → All IsDuplicate ys
      → ((first : String)
          → found ≡ some first
          → mark ≡ none
          → IsDuplicate (finding "duplicate_record" id "duplicates event {}" (str first ∷ [])))
      → All IsDuplicate (elim found [
        | none ↦ ys
        | some first ↦
            if not (is_some mark)
            then finding "duplicate_record" id "duplicates event {}" (str first ∷ []) ∷ xs
            else xs
      ])
  of_found none xs ys id mark hx hy f = hy
  of_found (some first) xs ys id none hx hy f = (f first refl refl, hx)
  of_found (some first) xs ys id (some by) hx hy f = hx

  duplicates-IsDuplicate :
      (n : ℕ) (seen : List (Key F × String)) (evs : List Event)
      → AreSeen n seen
      → AreNext n evs
      → All IsDuplicate (duplicates F seen evs)
  unfolding duplicates
  duplicates-IsDuplicate n seen [] s next = tt
  duplicates-IsDuplicate n seen (e ∷ evs) s next =
      let here : get_elem? l.events n ≡ some e =
        subst (λ k. get_elem? l.events k ≡ some e) (omega arith) (next 0 e refl) in
      let later : AreNext (n + 1) evs =
        λ m x at. subst (λ k. get_elem? l.events k ≡ some x) (omega arith) (next (suc m) x at) in
      let skipped = duplicates-IsDuplicate (n + 1) seen evs (AreSeen-later n seen s) later in
      let added =
        duplicates-IsDuplicate (n + 1) (seen ++ (key_of F e, e.event_id) ∷ []) evs
          (AreSeen-added n seen e s here) later in
      if-elim (All IsDuplicate)
        (e.event_type == value EventType.consumer_verification
          || e.event_type == value EventType.correction)
        _ _ (λ _. skipped)
        (λ _.
          of_found (first_of F (key_of F e) seen) _ _ e.event_id e.superseded_by skipped added
            (λ id found stands. finding-IsDuplicate n seen e id s here found stands))

  -- Every duplicated record that `scan` reports is an event that no correction supersedes, and a
  -- duplicate of an earlier event of the ledger: of one type, subject and actor, and with payloads
  -- of the same entries as text.
  pub duplicate_records-IsDuplicate : All IsDuplicate (duplicate_records F l)
  unfolding duplicate_records
  duplicate_records-IsDuplicate =
      duplicates-IsDuplicate 0 [] l.events (λ k id m at. cc)
        (λ m e at. ap (get_elem? l.events) (omega arith) ∙ at)

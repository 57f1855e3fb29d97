-- ===== src/Ledger/WellFormed.antt =====
-- The invariant that ties the list of events, the index by id and the marks of supersession.
pub mod Writes
use mathlib.Core.Path.{subst}
use olivechain.Base.{
  Bool-cases, ℕ, zero, suc, ◌<◌, String, ◌≡◌, refl, sym, ◌∙◌, ap, ◌⊎◌, inl, inr, Option, none, some,
  List, [], ◌∷◌, ◌++◌, Dict, lookup, insert, lookup-insert, arith, ◌==◌, eq_iff, eq_refl,
  if◌then◌else◌, length, get_elem?, get_elem?-append_left, get_elem?-append_last,
  get_elem?-snoc_cases, lt_of_get_elem?,
}
use olivechain.Crypto.{Crypto}
use olivechain.Json.{Value, Floats}
use olivechain.Event.{Event}
use olivechain.Models.{EventType, is_correction}
use olivechain.Registry.{Registry, Organization}
use olivechain.Result.{Exception, Result, ok, err, Result-cases}
use olivechain.Ledger.History.{correctable-state, Wrote, append-Wrote, commit_prepared-Wrote}
use olivechain.Ledger.Admission.{append-eq-land, commit_prepared-eq-land}
use olivechain.Ledger.{
  item, Ledger, Body, Submission, empty, mark, store, correctable, supersede, land, append,
  commit_prepared,
}

pub record IsWellFormed (l : Ledger) : Type 0 where
  -- The index leads to an event of that id, and to every event of the list.
  pub indexed :
      (id : String) (i : ℕ)
      → lookup id l.by_id ≡ some i
      → (e : Event) × (get_elem? l.events i ≡ some e) × (e.event_id ≡ id)
  pub complete :
      (i : ℕ) (e : Event) → get_elem? l.events i ≡ some e → lookup e.event_id l.by_id ≡ some i
  -- An event is superseded by a later one.
  pub forward :
      (i : ℕ) (e : Event) (id : String)
      → get_elem? l.events i ≡ some e
      → e.superseded_by ≡ some id
      → (j : ℕ) × (lookup id l.by_id ≡ some j) × (i < j)

pub IsWellFormed-empty : (r : Registry) (path : Option String) → IsWellFormed (empty r path)
unfolding lookup
IsWellFormed-empty r path = record {
  indexed = λ id i h. cc;
  complete = λ i e h. cc;
  forward = λ i e id h k. cc;
}

-- The events of `new` are those of `old`, some of them marked by `id`.
record Marks (id : String) (old new : List Event) : Type 0 where
  same_length : length new ≡ length old
  back :
      (j : ℕ) (e' : Event)
      → get_elem? new j ≡ some e'
      → (e : Event) × (get_elem? old j ≡ some e)
        × (e'.event_id ≡ e.event_id)
        × ((e'.superseded_by ≡ e.superseded_by) ⊎ (e'.superseded_by ≡ some id))
  onward :
      (j : ℕ) (e : Event)
      → get_elem? old j ≡ some e
      → (e' : Event) × (get_elem? new j ≡ some e') × (e'.event_id ≡ e.event_id)

Marks-refl : (id : String) (es : List Event) → Marks id es es
Marks-refl id es = record {
  same_length = refl;
  back = λ j e' h. (e', h, refl, inl refl);
  onward = λ j e h. (e, h, refl);
}

pub length-mark : (i : ℕ) (id : String) (es : List Event) → length (mark i id es) ≡ length es
unfolding mark
length-mark i id [] = refl
length-mark zero id (e ∷ es) = refl
length-mark (suc i) id (e ∷ es) = ap suc (length-mark i id es)

mark-back :
    (i : ℕ) (id : String) (es : List Event) (j : ℕ) (e' : Event)
    → get_elem? (mark i id es) j ≡ some e'
    → (e : Event) × (get_elem? es j ≡ some e)
      × (e'.event_id ≡ e.event_id)
      × ((e'.superseded_by ≡ e.superseded_by) ⊎ (e'.superseded_by ≡ some id))
unfolding mark
mark-back i id [] j e' h = cc
mark-back zero id (e ∷ es) zero e' h = (e, refl, cc, inr (cc))
mark-back zero id (e ∷ es) (suc j) e' h = (e', h, refl, inl refl)
mark-back (suc i) id (e ∷ es) zero e' h = (e', h, refl, inl refl)
mark-back (suc i) id (e ∷ es) (suc j) e' h = mark-back i id es j e' h

mark-onward :
    (i : ℕ) (id : String) (es : List Event) (j : ℕ) (e : Event)
    → get_elem? es j ≡ some e
    → (e' : Event) × (get_elem? (mark i id es) j ≡ some e') × (e'.event_id ≡ e.event_id)
unfolding mark
mark-onward i id [] j e h = cc
mark-onward zero id (x ∷ es) zero e h = (record x { superseded_by = some id }, refl, cc)
mark-onward zero id (x ∷ es) (suc j) e h = (e, h, refl)
mark-onward (suc i) id (x ∷ es) zero e h = (e, h, refl)
mark-onward (suc i) id (x ∷ es) (suc j) e h = mark-onward i id es j e h

Marks-mark : (i : ℕ) (id : String) (es : List Event) → Marks id es (mark i id es)
Marks-mark i id es = record {
  same_length = length-mark i id es;
  back = mark-back i id es;
  onward = mark-onward i id es;
}

module _ (l : Ledger) (ev : Event) (marked : List Event) (v : IsWellFormed l)
    (fresh : lookup ev.event_id l.by_id ≡ none) (unmarked : ev.superseded_by ≡ none)
    (m : Marks ev.event_id l.events marked) where
  abbrev stored : Ledger
  stored = record l {
    events = marked ++ ev ∷ [];
    by_id = insert ev.event_id (length l.events) l.by_id;
  }

  -- The new id hides no old one.
  old_id : (id : String) (i : ℕ) → lookup id l.by_id ≡ some i → lookup id stored.by_id ≡ some i
  old_id id i h = rw lookup-insert (ground (arith, eq_iff ev.event_id id))

  new_id : lookup ev.event_id stored.by_id ≡ some (length l.events)
  new_id = simp (lookup-insert, eq_refl)

  stored-indexed :
      (id : String) (i : ℕ)
      → lookup id stored.by_id ≡ some i
      → (e : Event) × (get_elem? stored.events i ≡ some e) × (e.event_id ≡ id)
  stored-indexed id i h = elim (Bool-cases (ev.event_id == id)) [
    | inl same ↦
        let at : i ≡ length marked =
          ground (arith, lookup-insert ev.event_id id (length l.events) l.by_id, m.same_length) in
        (ev, rw at (get_elem?-append_last marked ev), (eq_iff ev.event_id id).0 same)
    | inr other ↦
        let (e, at, named) =
          v.indexed id i (ground (arith, lookup-insert ev.event_id id (length l.events) l.by_id)) in
        let (e', at', named') = m.onward i e at in
        (
          e',
          get_elem?-append_left marked (ev ∷ []) i (lt_of_get_elem? marked i at') ∙ at',
          named' ∙ named,
        )
  ]

  stored_complete :
      (i : ℕ) (e : Event)
      → get_elem? stored.events i ≡ some e
      → lookup e.event_id stored.by_id ≡ some i
  stored_complete i e h = elim (get_elem?-snoc_cases marked ev i h) [
    | inl old ↦
        let (e₀, at, id, _) = m.back i e old in rw id (old_id e₀.event_id i (v.complete i e₀ at))
    | inr (last, same) ↦ rw (same, last, m.same_length) new_id
  ]

  stored-forward :
      (i : ℕ) (e : Event) (id : String)
      → get_elem? stored.events i ≡ some e
      → e.superseded_by ≡ some id
      → (j : ℕ) × (lookup id stored.by_id ≡ some j) × (i < j)
  stored-forward i e id h k = elim (get_elem?-snoc_cases marked ev i h) [
    | inl old ↦
        let (e₀, at, _, marks) = m.back i e old in
        elim marks [
          | inl same ↦
              let (j, found, later) = v.forward i e₀ id at (sym same ∙ k) in
              (j, old_id id j found, later)
          | inr now ↦
              let named : ev.event_id ≡ id = cc in
              (
                length l.events,
                subst (λ x. lookup x stored.by_id ≡ some (length l.events)) named new_id,
                lt_of_get_elem? l.events i at,
              )
        ]
    | inr (last, same) ↦ cc
  ]

  stored-IsWellFormed : IsWellFormed stored
  stored-IsWellFormed = record {
    indexed = stored-indexed;
    complete = stored_complete;
    forward = stored-forward;
  }

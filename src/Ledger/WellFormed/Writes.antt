-- ===== src/Ledger/WellFormed/Writes.antt =====
-- `append` and `commit_prepared` keep the invariant of the ledger.
use mathlib.Core.Path.{subst}
use olivechain.Base.{
  false, true, Option-cases, Bool-cases, ℕ, ◌<◌, String, ◌≡◌, refl, sym, inl, inr, none, some,
  lookup, arith, length, get_elem?, lt_of_get_elem?,
}
use olivechain.Crypto.{Crypto}
use olivechain.Json.{str, Value, Floats}
use olivechain.Json.Access.{item}
use olivechain.Event.{Event}
use olivechain.Models.{EventType, value, is_correction}
use olivechain.Registry.{Organization}
use olivechain.Result.{Result, ok, err, Result-cases}
use olivechain.Ledger.History.{correctable-state, Wrote, append-Wrote, commit_prepared-Wrote}
use olivechain.Ledger.Admission.{
  prepare-Admitted, recheck-Admitted, append-eq-land, commit_prepared-eq-land,
}
use olivechain.Ledger.{
  find_target, value_or, Ledger, Body, Submission, mark, store, correctable, supersede, land,
  append, commit_prepared,
}
use olivechain.Ledger.WellFormed.{
  IsWellFormed, Marks-refl, Marks-mark, length-mark, stored-IsWellFormed,
}

-- How the end of a write stores its event: over the events as they are, or with a target marked.
pub data Lands (t : EventType) (target : Result Value) (ev : Event) (l l' : Ledger) : Type 0 where
  plain : is_correction t ≡ false → l' ≡ (store ev l).1 → Lands t target ev l l'
  correction :
      is_correction t ≡ true
      → (v : Value) (i : ℕ) → target ≡ ok v
      → find_target v l ≡ ok (some i)
      → i < length l.events
      → l' ≡ (store ev (record l { events = mark i ev.event_id l.events })).1
      → Lands t target ev l l'

correctable-eq-ok :
    (v : Value) (a : String) (org : Organization) (l : Ledger) (i : ℕ)
    → (correctable v a org l).0 ≡ ok i
    → (find_target v l ≡ ok (some i)) × (e : Event) × (get_elem? l.events i ≡ some e)
unfolding correctable
correctable-eq-ok v a org l i h = elim (Option-cases (get_elem? l.events i)) [
  | inl missing ↦ absurd (ground arith)
  | inr (e, at) ↦ (ground arith, e, at)
]

module _ (t : EventType) (target : Result Value) (org : Organization) (ev : Event) (l : Ledger)
    {ev' : Event} (landed : (land t target org ev l).0 ≡ ok ev') where
  land-Lands : Lands t target ev l (land t target org ev l).1
  unfolding land supersede
  land-Lands = elim (Bool-cases (is_correction t)) [
    | inr other ↦ plain other (ground arith)
    | inl corrects ↦ elim (Result-cases target) [
      | inr (x, unknown) ↦ absurd (ground arith)
      | inl (v, known) ↦ elim (Result-cases (correctable v ev.actor_org org l).0) [
        | inr (x, refused) ↦ absurd (ground arith)
        | inl (i, found) ↦
            let (searched, e, at) = correctable-eq-ok v ev.actor_org org l i found in
            correction corrects v i known searched (lt_of_get_elem? l.events i at)
              (ground (arith, correctable-state v ev.actor_org org l))
      ]
    ]
  ]

Lands-IsWellFormed :
    {t : EventType} {target : Result Value} {l l' : Ledger} {ev : Event}
    → Lands t target ev l l'
    → lookup ev.event_id l.by_id ≡ none
    → ev.superseded_by ≡ none
    → IsWellFormed l
    → IsWellFormed l'
unfolding store
Lands-IsWellFormed {l} {l'} {ev} (plain _ e) fresh unmarked v =
    let w = stored-IsWellFormed l ev l.events v fresh unmarked (Marks-refl ev.event_id l.events) in
    (rw e (record { indexed = w.indexed; complete = w.complete; forward = w.forward }))
Lands-IsWellFormed {l} {l'} {ev} (correction _ v₀ i _ _ _ e) fresh unmarked v =
    let w =
      stored-IsWellFormed l ev (mark i ev.event_id l.events) v fresh unmarked
        (Marks-mark i ev.event_id l.events) in
    (rw (e, length-mark)
      (record { indexed = w.indexed; complete = w.complete; forward = w.forward }))

-- What a successful write tells of its event.
abbrev pub LandsFresh : EventType → Result Value → Event → Ledger → Ledger → Type 0
LandsFresh t target ev l l' =
    Lands t target ev l l' × (lookup ev.event_id l.by_id ≡ none) × (ev.event_type ≡ value t)

write-IsWellFormed :
    (l : Ledger) (w : Result Event × Ledger)
    → Wrote l w
    → ((ev : Event)
        → w.0 ≡ ok ev
        → (t : EventType) × (target : Result Value) × LandsFresh t target ev l w.1)
    → IsWellFormed l
    → IsWellFormed w.1
write-IsWellFormed l (err e, l') same lands v = subst IsWellFormed (sym same) v
write-IsWellFormed l (ok ev, l') grown lands v =
    let (_, _, (lands', fresh, _)) = lands ev refl in
    Lands-IsWellFormed lands' fresh grown.unmarked v

module _ (F : Floats) (C : Crypto) where
  pub append-LandsFresh :
      (s : Submission) (l : Ledger) {ev : Event}
      → lookup s.fresh_id l.by_id ≡ none
      → (append F C s l).0 ≡ ok ev
      → LandsFresh s.event_type (item "supersedes_event" s.payload) ev l (append F C s l).1
        × (ev.payload ≡ s.payload)
  append-LandsFresh s l {ev} fresh e =
      let (org, checked, same) = append-eq-land F C s l e in
      let (a, _, id, payload) = prepare-Admitted F C s l checked in
      let target = item "supersedes_event" s.payload in
      let lands = land-Lands s.event_type target org ev l (subst (λ w. w.0 ≡ ok ev) same e) in
      (
        (subst (λ w. Lands s.event_type target ev l w.1) (sym same) lands, rw id fresh, a.typed),
        payload,
      )

  pub commit_prepared-LandsFresh :
      (body : Body) (signature : String) (l : Ledger) {ev : Event}
      → (commit_prepared F C body signature l).0 ≡ ok ev
      → (t : EventType) × LandsFresh t
          (ok (value_or (str "") (lookup "supersedes_event" body.payload)))
          ev
          l
          (commit_prepared F C body signature l).1
        × (ev.payload ≡ body.payload)
  commit_prepared-LandsFresh body signature l {ev} e =
      let (t, org, checked, same) = commit_prepared-eq-land F C body signature l e in
      let (a, c, fresh) = recheck-Admitted F C body signature l checked in
      let target : Result Value = ok (value_or (str "") (lookup "supersedes_event" body.payload)) in
      let lands = land-Lands t target org ev l (subst (λ w. w.0 ≡ ok ev) same e) in
      (
        t,
        (subst (λ w. Lands t target ev l w.1) (sym same) lands, rw c.id fresh, a.typed),
        c.same_payload,
      )

  -- If the index leads to the events of its ids and to all of them, and each mark names a later
  -- event, the same holds after a call of `append`, if uuid4 returns no id of the ledger.
  pub append-IsWellFormed :
      (s : Submission) (l : Ledger)
      → lookup s.fresh_id l.by_id ≡ none
      → IsWellFormed l
      → IsWellFormed (append F C s l).1
  append-IsWellFormed s l fresh =
      write-IsWellFormed l (append F C s l) (append-Wrote F C s l) (λ ev e.
        (s.event_type, item "supersedes_event" s.payload, (append-LandsFresh s l fresh e).0))

  -- If the index leads to the events of its ids and to all of them, and each mark names a later
  -- event, the same holds after a call of `commit_prepared`.
  pub commit_prepared-IsWellFormed :
      (body : Body) (signature : String) (l : Ledger)
      → IsWellFormed l
      → IsWellFormed (commit_prepared F C body signature l).1
  commit_prepared-IsWellFormed body signature l =
      write-IsWellFormed l (commit_prepared F C body signature l)
        (commit_prepared-Wrote F C body signature l)
        (λ ev e.
          let (t, lands, _) = commit_prepared-LandsFresh body signature l e in
          (t, ok (value_or (str "") (lookup "supersedes_event" body.payload)), lands))

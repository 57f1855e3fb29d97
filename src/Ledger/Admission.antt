-- ===== src/Ledger/Admission.antt =====
-- What holds of an event that `append` or `commit_prepared` has let in.
pub mod Admits
use olivechain.Base.{
  none, lookup, eq_iff, String, true, ◌≡◌, inl, inr, Option, List, [], Dict, arith, Option-cases,
}
use olivechain.Crypto.{Crypto}
use olivechain.Json.{str, Value, Float, Floats}
use olivechain.Json.Access.{item}
use olivechain.Event.{Event, signing_body, chained_hash}
use olivechain.Models.Names.{value-of_value}
use olivechain.Models.{EventType, value, of_value}
use olivechain.Registry
use olivechain.Registry.{Organization}
use olivechain.Result.{Result, ok, Result-cases}
use olivechain.Ledger.History.{prepare-state, recheck-state}
use olivechain.Ledger.{
  prepare, recheck, value_or, Ledger, Body, of_body, Submission, head_hash, land, permitted,
  missing_fields, append, commit_prepared,
}

land-eq-ok :
    (t : EventType) (target : Result Value) (org : Organization) (ev : Event) (l : Ledger)
    {ev' : Event}
    → (land t target org ev l).0 ≡ ok ev'
    → ev' ≡ ev
unfolding land
land-eq-ok t target org ev l h = grind arith

module _ (F : Floats) (C : Crypto) where
  -- What is committed is the body that was prepared, under the signature that was sent.
  pub record Commits (body : Body) (signature : String) (ev : Event) : Type 0 where
    pub actor : ev.actor_org ≡ body.actor_org
    pub id : ev.event_id ≡ body.event_id
    pub signed : ev.signature ≡ signature
    pub same_payload : ev.payload ≡ body.payload
    pub signing : signing_body F ev ≡ signing_body F (of_body body)

  -- The conditions under which an event of type `t` by `org` stands at the end of `l`.
  pub record Admitted (l : Ledger) (t : EventType) (org : Organization) (ev : Event) : Type 0 where
    pub registered : Registry.get ev.actor_org l.registry ≡ ok org
    pub typed : ev.event_type ≡ value t
    pub permission : permitted org t ≡ true
    pub complete : missing_fields t ev.payload ≡ []
    pub chained : ev.prev_hash ≡ head_hash l
    pub hashed : ev.event_hash ≡ chained_hash F C ev

  abbrev pub IsSigned : Organization → Event → Type 0
  IsSigned org ev = C.verify_signature org.public_key (signing_body F ev) ev.signature ≡ true

  pub prepare-Admitted :
      (s : Submission) (l : Ledger) {c : Organization × Event}
      → (prepare F C s l).0 ≡ ok c
      → Admitted l s.event_type c.0 c.1
        × IsSigned c.0 c.1
        × (c.1.event_id ≡ s.fresh_id)
        × (c.1.payload ≡ s.payload)
  unfolding prepare chained_hash signing_body
  prepare-Admitted s l h = ground arith

  pub recheck-Admitted :
      (body : Body) (signature : String) (l : Ledger) {c : EventType × Organization × Event}
      → (recheck F C body signature l).0 ≡ ok c
      → Admitted l c.0 c.1 c.2 × Commits body signature c.2 × (lookup body.event_id l.by_id ≡ none)
  unfolding recheck chained_hash signing_body
  recheck-Admitted body signature l h = elim (Option-cases (of_value body.event_type)) [
    | inl unknown ↦ ground arith
    | inr (t, read) ↦
        let named : value t ≡ body.event_type = value-of_value body.event_type t read in
        ground (arith, eq_iff body.prev_hash (head_hash l))
  ]

  -- A call that succeeds ends as `land` does.
  pub append-eq-land :
      (s : Submission) (l : Ledger) {ev : Event}
      → (append F C s l).0 ≡ ok ev
      → (org : Organization) × ((prepare F C s l).0 ≡ ok (org, ev))
        × (append F C s l ≡ land s.event_type (item "supersedes_event" s.payload) org ev l)
  unfolding append
  append-eq-land s l {ev} h = elim (Result-cases (prepare F C s l).0) [
    | inl (c, checked) ↦
        let target = item "supersedes_event" s.payload in
        let same : append F C s l ≡ land s.event_type target c.0 c.1 l =
          ground (arith, prepare-state F C s l) in
        let kept : ev ≡ c.1 =
          land-eq-ok s.event_type target c.0 c.1 l (ground (arith, prepare-state F C s l)) in
        (c.0, rw kept checked, rw kept same)
    | inr (e, refused) ↦ ground arith
  ]

  pub commit_prepared-eq-land :
      (body : Body) (signature : String) (l : Ledger) {ev : Event}
      → (commit_prepared F C body signature l).0 ≡ ok ev
      → (t : EventType) × (org : Organization) × ((recheck F C body signature l).0
          ≡ ok (t, org, ev))
        × (commit_prepared F C body signature l
            ≡ land t (ok (value_or (str "") (lookup "supersedes_event" body.payload))) org ev l)
  unfolding commit_prepared
  commit_prepared-eq-land body signature l {ev} h =
      elim (Result-cases (recheck F C body signature l).0) [
        | inl (c, checked) ↦
            let target : Result Value =
              ok (value_or (str "") (lookup "supersedes_event" body.payload)) in
            let same : commit_prepared F C body signature l ≡ land c.0 target c.1 c.2 l =
              ground (arith, recheck-state F C body signature l) in
            let kept : ev ≡ c.2 =
              land-eq-ok c.0 target c.1 c.2 l
                (ground (arith, recheck-state F C body signature l)) in
            (c.0, c.1, rw kept checked, rw kept same)
        | inr (e, refused) ↦ ground arith
      ]

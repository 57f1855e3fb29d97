-- ===== src/Ledger/History.antt =====
-- What `append` and `commit_prepared` leave of the ledger that they were called on.
use olivechain.Base.{
  ℕ, zero, suc, String, ◌≡◌, refl, ap, none, List, [], ◌∷◌, ◌++◌, insert, arith, length,
  if◌then◌else◌,
}
use olivechain.Crypto.{Crypto}
use olivechain.Json.{Value, Floats}
use olivechain.Event.{Event}
use olivechain.Models.{EventType}
use olivechain.Registry.{Organization}
use olivechain.Result.{Exception, Result, ok, err}
use olivechain.Ledger.{
  prepare, recheck, Ledger, Body, Submission, mark, correctable, supersede, store, land,
  truthy_text, append, commit_prepared,
}

-- An event without the pointer that a later correction sets.
abbrev pub content : Event → Event
content e = record e { superseded_by = none }

abbrev pub contents : List Event → List Event
contents [] = []
contents (e ∷ es) = content e ∷ contents es

contents-mark : (i : ℕ) (id : String) (es : List Event) → contents (mark i id es) ≡ contents es
unfolding mark
contents-mark i id [] = refl
contents-mark zero id (e ∷ es) = refl
contents-mark (suc i) id (e ∷ es) = ap (λ r. content e ∷ r) (contents-mark i id es)

pub contents-append :
    (es : List Event) (e : Event) → contents (es ++ e ∷ []) ≡ contents es ++ content e ∷ []
contents-append [] e = refl
contents-append (x ∷ es) e = ap (λ r. content x ∷ r) (contents-append es e)

-- `supersede` changes nothing but the pointers of supersession.
record SameButMarks (l l' : Ledger) : Type 0 where
  registry : l'.registry ≡ l.registry
  path : l'.path ≡ l.path
  by_id : l'.by_id ≡ l.by_id
  file : l'.file ≡ l.file
  events : contents l'.events ≡ contents l.events

pub correctable-state :
    (v : Value) (a : String) (org : Organization) (l : Ledger) → (correctable v a org l).1 ≡ l
unfolding correctable
correctable-state v a org l = ground arith

supersede-SameButMarks :
    (v : Value) (a id : String) (org : Organization) (l : Ledger)
    → SameButMarks l (supersede v a id org l).1
unfolding supersede
supersede-SameButMarks v a id org l = grind (arith, correctable-state v a org l, contents-mark)

supersede-err :
    (v : Value) (a id : String) (org : Organization) (l : Ledger) {e : Exception}
    → (supersede v a id org l).0 ≡ err e
    → (supersede v a id org l).1 ≡ l
unfolding supersede
supersede-err v a id org l h = ground (arith, correctable-state v a org l)

-- What a write has done to the ledger, by how it ended: an exception leaves it as it was; a success
-- adds one event at the end, and changes nothing of the events before it but their marks.
pub record Grown (l : Ledger) (ev : Event) (l' : Ledger) : Type 0 where
  pub registry : l'.registry ≡ l.registry
  pub path : l'.path ≡ l.path
  pub events : contents l'.events ≡ contents l.events ++ ev ∷ []
  pub by_id : l'.by_id ≡ insert ev.event_id (length l.events) l.by_id
  pub file : l'.file ≡ (if truthy_text l.path then l.file ++ ev ∷ [] else l.file)
  pub unmarked : ev.superseded_by ≡ none

abbrev pub Wrote : Ledger → Result Event × Ledger → Type 0
Wrote l (err e, l') = l' ≡ l
Wrote l (ok ev, l') = Grown l ev l'

length-contents : (es : List Event) → length (contents es) ≡ length es
length-contents [] = refl
length-contents (e ∷ es) = ap suc (length-contents es)

store-Wrote :
    (l l₁ : Ledger) (ev : Event)
    → SameButMarks l l₁
    → ev.superseded_by ≡ none
    → Wrote l (ok ev, (store ev l₁).1)
unfolding store
store-Wrote l l₁ ev same fresh = record {
  registry = same.registry;
  path = same.path;
  events = rw (contents-append, same.events) (ground arith);
  by_id =
      ground (arith, length-contents l.events, length-contents l₁.events, same.events, same.by_id);
  file = ground arith;
  unmarked = fresh;
}

land-Wrote :
    (t : EventType) (target : Result Value) (org : Organization) (ev : Event) (l : Ledger)
    → ev.superseded_by ≡ none
    → Wrote l (land t target org ev l)
unfolding land
land-Wrote t target org ev l fresh = grind (
  arith,
  store-Wrote l l ev
      (record { registry = refl; path = refl; by_id = refl; file = refl; events = refl }) fresh,
  store-Wrote l,
  supersede-SameButMarks,
  supersede-err,
)

module _ (F : Floats) (C : Crypto) where
  pub prepare-state : (s : Submission) (l : Ledger) → (prepare F C s l).1 ≡ l
  unfolding prepare
  prepare-state s l = ground arith

  pub recheck-state :
      (body : Body) (signature : String) (l : Ledger) → (recheck F C body signature l).1 ≡ l
  unfolding recheck
  recheck-state body signature l = ground arith

  prepare-unmarked :
      (s : Submission) (l : Ledger) {c : Organization × Event}
      → (prepare F C s l).0 ≡ ok c
      → c.1.superseded_by ≡ none
  unfolding prepare
  prepare-unmarked s l h = ground arith

  recheck-unmarked :
      (body : Body) (signature : String) (l : Ledger) {c : EventType × Organization × Event}
      → (recheck F C body signature l).0 ≡ ok c
      → c.2.superseded_by ≡ none
  unfolding recheck
  recheck-unmarked body signature l h = ground arith

  -- A call of `append` either raises and leaves the ledger as it was, or adds one event at the end
  -- of the list, of the index and of the file, and changes nothing of the earlier events but marks.
  pub append-Wrote : (s : Submission) (l : Ledger) → Wrote l (append F C s l)
  unfolding append
  append-Wrote s l = grind (
    arith,
    land-Wrote,
    prepare-state s l,
    λ (c : Organization × Event). prepare-unmarked s l {c = c},
  )

  -- A call of `commit_prepared` either raises and leaves the ledger as it was, or adds one event at
  -- the end of the list, of the index and of the file, and changes nothing of the earlier events but
  -- marks.
  pub commit_prepared-Wrote :
      (body : Body) (signature : String) (l : Ledger)
      → Wrote l (commit_prepared F C body signature l)
  unfolding commit_prepared
  commit_prepared-Wrote body signature l = grind (
    arith,
    land-Wrote,
    recheck-state body signature l,
    λ (c : EventType × Organization × Event). recheck-unmarked body signature l {c = c},
  )

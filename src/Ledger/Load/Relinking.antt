-- ===== src/Ledger/Load/Relinking.antt =====
-- The two loops of `_load`, over a file that has one more event at its end.
use olivechain.Base.{
  ℕ, zero, suc, ◌<◌, String, Bool, true, false, ◌≡◌, refl, sym, ◌∙◌, ap, inl, inr, none, some, List,
  [], ◌∷◌, ◌++◌, lookup, insert, lookup-insert, arith, ◌==◌, eq_iff, length, length-append,
  Bool-cases, All, if◌then◌else◌,
}
use olivechain.Json.{Value, str, null}
use olivechain.Event.{Event}
use olivechain.Models.{EventType, value}
use olivechain.Result.{ok, Result-cases}
use olivechain.Ledger.{Ledger, find_target, mark, value_or}
use olivechain.Ledger.WellFormed.{length-mark}
use olivechain.Ledger.Load.{read_events, relink, rebuild}

-- The list and the index with one more event.
abbrev pub added : Event → Ledger → Ledger
added ev l = record l {
  events = l.events ++ ev ∷ [];
  by_id = insert ev.event_id (length l.events) l.by_id;
}

pub read_events-snoc :
    (evs : List Event) (ev : Event) (l : Ledger)
    → read_events (evs ++ ev ∷ []) l ≡ added ev (read_events evs l)
unfolding read_events
read_events-snoc [] ev l = refl
read_events-snoc (e ∷ evs) ev l = read_events-snoc evs ev (added e l)

pub mark-snoc :
    (i : ℕ) (id : String) (es : List Event) (ev : Event)
    → i < length es
    → mark i id (es ++ ev ∷ []) ≡ mark i id es ++ ev ∷ []
unfolding mark
mark-snoc i id [] ev h = elim h [ ]
mark-snoc zero id (e ∷ es) ev h = refl
mark-snoc (suc i) id (e ∷ es) ev h = ap (λ r. e ∷ r) (mark-snoc i id es ev (omega arith))

pub find_target-added :
    (v : Value) (ev : Event) (l : Ledger) {i : ℕ}
    → lookup ev.event_id l.by_id ≡ none
    → find_target v l ≡ ok (some i)
    → find_target v (added ev l) ≡ ok (some i)
unfolding find_target
find_target-added (str id) ev l fresh h =
    ground (arith, lookup-insert ev.event_id id (length l.events) l.by_id, eq_iff ev.event_id id)
find_target-added null ev l fresh h = cc
find_target-added _ ev l fresh h = cc

abbrev pub target_id : Event → Value
target_id ev = value_or (str "") (lookup "supersedes_event" ev.payload)

abbrev pub is_correcting : Event → Bool
is_correcting ev = ev.event_type == value EventType.correction

-- A correction of the file names an event that is there.
abbrev pub HasTarget : Ledger → Event → Type 0
HasTarget l ev =
    is_correcting ev ≡ true
    → (i : ℕ) × (find_target (target_id ev) l ≡ ok (some i)) × (i < length l.events)

pub All-HasTarget-added :
    (evs : List Event) (ev : Event) (l : Ledger)
    → lookup ev.event_id l.by_id ≡ none
    → All (HasTarget l) evs
    → All (HasTarget (added ev l)) evs
All-HasTarget-added [] ev l fresh h = tt
All-HasTarget-added (e ∷ evs) ev l fresh (h, hs) = (
  λ c.
      let (i, found, inside) = h c in
      (
        i,
        find_target-added (target_id e) ev l fresh found,
        omega (arith, length-append l.events (ev ∷ [])),
      ),
  All-HasTarget-added evs ev l fresh hs,
)

-- `find_target` looks only at the index.
find_target-events :
    (v : Value) (l : Ledger) (es : List Event)
    → find_target v (record l { events = es }) ≡ find_target v l
unfolding find_target
find_target-events null l es = refl
find_target-events _ l es = refl

All-HasTarget-mark :
    (evs : List Event) (i : ℕ) (id : String) (l : Ledger)
    → All (HasTarget l) evs
    → All (HasTarget (record l { events = mark i id l.events })) evs
All-HasTarget-mark [] i id l h = tt
All-HasTarget-mark (e ∷ evs) i id l (h, hs) = (
  λ c.
      let (j, found, inside) = h c in
      (
        j,
        find_target-events (target_id e) l (mark i id l.events) ∙ found,
        omega (arith, length-mark i id l.events),
      ),
  All-HasTarget-mark evs i id l hs,
)

pub relink-found :
    (ev : Event) (l : Ledger) {i : ℕ}
    → find_target (target_id ev) l ≡ ok (some i)
    → relink ev l ≡ ok (record l { events = mark i ev.event_id l.events })
unfolding relink
relink-found ev l h = ground arith

-- Both loops step on an event of the file in one of two ways.
pub rebuild-other :
    (e : Event) (evs : List Event) (l : Ledger)
    → is_correcting e ≡ false
    → rebuild (e ∷ evs) l ≡ rebuild evs l
unfolding rebuild
rebuild-other e evs l other = ground arith

pub rebuild-correcting :
    (e : Event) (evs : List Event) (l : Ledger) {i : ℕ}
    → is_correcting e ≡ true
    → find_target (target_id e) l ≡ ok (some i)
    → rebuild (e ∷ evs) l ≡ rebuild evs (record l { events = mark i e.event_id l.events })
unfolding rebuild
rebuild-correcting e evs l corrects found = ground (arith, relink-found e l found)

-- Relinking a file and adding an event can be exchanged.
pub rebuild-added :
    (evs : List Event) (ev : Event) (l : Ledger) {l' : Ledger}
    → lookup ev.event_id l.by_id ≡ none
    → All (HasTarget l) evs
    → rebuild evs l ≡ ok l'
    → rebuild evs (added ev l) ≡ ok (added ev l')
rebuild-added [] ev l fresh h r = unfold rebuild in (ground arith)
rebuild-added (e ∷ evs) ev l {l'} fresh (h, hs) r = elim (Bool-cases (is_correcting e)) [
  | inr other ↦
      rebuild-other e evs (added ev l) other
      ∙ rebuild-added evs ev l fresh hs (sym (rebuild-other e evs l other) ∙ r)
  | inl corrects ↦
      let (i, found, inside) = h corrects in
      let marked : Ledger = record l { events = mark i e.event_id l.events } in
      let swapped : record (added ev l) { events = mark i e.event_id (l.events ++ ev ∷ []) }
          ≡ added ev marked =
        ground
          (arith, mark-snoc i e.event_id l.events ev inside, length-mark i e.event_id l.events) in
      rebuild-correcting e evs (added ev l) corrects
        (find_target-added (target_id e) ev l fresh found)
      ∙ ap (rebuild evs) swapped
      ∙ rebuild-added evs ev marked fresh (All-HasTarget-mark evs i e.event_id l hs)
          (sym (rebuild-correcting e evs l corrects found) ∙ r)
]

pub rebuild-snoc :
    (evs : List Event) (ev : Event) (l : Ledger) {l' : Ledger}
    → rebuild evs l ≡ ok l'
    → rebuild (evs ++ ev ∷ []) l ≡ rebuild (ev ∷ []) l'
unfolding rebuild
rebuild-snoc [] ev l r = ground arith
rebuild-snoc (e ∷ evs) ev l {l'} r =
    elim (Result-cases (if is_correcting e then relink e l else ok l)) [
      | inl (next, stepped) ↦
          let rest : rebuild evs next ≡ ok l' = ground arith in
          let later = rebuild-snoc evs ev next rest in ground arith
      | inr (x, raised) ↦ absurd (ground arith)
    ]

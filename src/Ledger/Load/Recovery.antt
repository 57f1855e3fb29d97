-- ===== src/Ledger/Load/Recovery.antt =====
-- A restart: what `_load` reads back from the file is the ledger that wrote it.
use mathlib.Core.Path.{subst}
use olivechain.Base.{
  ◌<◌, String, true, false, ◌≡◌, refl, sym, ◌∙◌, ap, Option, none, some, List, [], ◌∷◌, ◌++◌, Dict,
  lookup, insert, arith, ◌==◌, length, length-append, All, All-append,
}
use olivechain.Crypto.{Crypto}
use olivechain.Json.{Value, Floats, str, null}
use olivechain.Json.Access.{item}
use olivechain.Event.{Event}
use olivechain.Models.{EventType, value, is_correction}
use olivechain.Registry.{Registry}
use olivechain.Result.{Result, ok, err}
use olivechain.Ledger.{
  Ledger, Body, Submission, empty, truthy_text, find_target, mark, store, append, commit_prepared,
  value_or,
}
use olivechain.Ledger.WellFormed.{length-mark}
use olivechain.Ledger.WellFormed.Writes.{
  Lands, LandsFresh, plain, correction, append-LandsFresh, commit_prepared-LandsFresh,
}
use olivechain.Ledger.History.{Wrote, append-Wrote, commit_prepared-Wrote}
use olivechain.Ledger.Load.{read_events, rebuild, load}
use olivechain.Ledger.Load.Relinking.{
  added, read_events-snoc, mark-snoc, find_target-added, target_id, is_correcting, HasTarget,
  All-HasTarget-added, rebuild-added, rebuild-other, rebuild-correcting, rebuild-snoc,
}

-- The ledger after the first loop.
abbrev read : Registry → Option String → List Event → Ledger
read registry path file = read_events file (empty registry path)

-- The file of a ledger holds what `_load` needs to rebuild it.
pub record IsDurable (l : Ledger) : Type 0 where
  saved : truthy_text l.path ≡ true
  raw : (read l.registry l.path l.file).events ≡ l.file
  size : length l.file ≡ length l.events
  index : (read l.registry l.path l.file).by_id ≡ l.by_id
  targets : All (HasTarget (read l.registry l.path l.file)) l.file
  relinked : rebuild l.file (read l.registry l.path l.file) ≡ ok (record l { file = [] })

-- A durable ledger is what a restart loads.
pub load-IsDurable : (l : Ledger) → IsDurable l → load l.registry l.path l.file ≡ ok l
unfolding load
load-IsDurable l d = rw (d.raw, d.relinked)

value-correction : (t : EventType) → (value t == value EventType.correction) ≡ is_correction t
unfolding value
value-correction EventType.correction = refl
value-correction _ = refl

find_target-by_id :
    (v : Value) (l m : Ledger) → l.by_id ≡ m.by_id → find_target v l ≡ find_target v m
unfolding find_target
find_target-by_id (str id) l m e = ap (λ d. ok (lookup id d)) e
find_target-by_id null l m e = refl
find_target-by_id _ l m e = refl

module _ (t : EventType) (target : Result Value) (l : Ledger) (ev : Event) (d : IsDurable l)
    (fresh : lookup ev.event_id l.by_id ≡ none) (typed : ev.event_type ≡ value t)
    (named : (v : Value) → target ≡ ok v → target_id ev ≡ v) where
  abbrev start : Ledger
  start = read l.registry l.path l.file

  abbrev start_added : read l.registry l.path (l.file ++ ev ∷ []) ≡ added ev start
  start_added = read_events-snoc l.file ev (empty l.registry l.path)

  unread : lookup ev.event_id start.by_id ≡ none
  unread = rw d.index fresh

  correcting : is_correcting ev ≡ is_correction t
  correcting = rw typed (value-correction t)

  -- Everything but the new event is relinked as before.
  old_events : rebuild l.file (added ev start) ≡ ok (added ev (record l { file = [] }))
  old_events = rebuild-added l.file ev start unread d.targets d.relinked

  -- The ledger that has stored the event, over old events that may be marked.
  abbrev after : List Event → Ledger
  after es = record l {
    events = es ++ ev ∷ [];
    by_id = insert ev.event_id (length l.events) l.by_id;
    file = l.file ++ ev ∷ [];
  }

  after-IsDurable :
      (es : List Event)
      → length es ≡ length l.events
      → HasTarget start ev
      → rebuild (ev ∷ []) (added ev (record l { file = [] })) ≡ ok (record (after es) { file = [] })
      → IsDurable (after es)
  after-IsDurable es same has last = record {
    saved = d.saved;
    raw = rw (start_added, d.raw) refl;
    size = omega (arith, length-append l.file (ev ∷ []), length-append es (ev ∷ []), d.size);
    index = rw start_added (ground (arith, d.index, d.raw, d.size));
    targets =
        subst (λ r. All (HasTarget r) (l.file ++ ev ∷ [])) (sym start_added)
          (All-HasTarget-added (l.file ++ ev ∷ []) ev start unread
            (All-append (HasTarget start) l.file (ev ∷ []) d.targets (has, tt)));
    relinked =
        ap (rebuild (l.file ++ ev ∷ [])) start_added
        ∙ rebuild-snoc l.file ev (added ev start) old_events
        ∙ last;
  }

  Lands-IsDurable : {l' : Ledger} → Lands t target ev l l' → IsDurable l'
  unfolding store
  Lands-IsDurable {l'} (plain other e) =
      let same : l' ≡ after l.events = ground (arith, d.saved) in
      let apart : is_correcting ev ≡ false = correcting ∙ other in
      subst IsDurable (sym same) (
        after-IsDurable l.events refl (λ c. cc)
          (rebuild-other ev [] (added ev (record l { file = [] })) apart ∙ unfold rebuild in refl))
  Lands-IsDurable {l'} (correction corrects v i known found inside e) =
      let same : l' ≡ after (mark i ev.event_id l.events) =
        ground (arith, d.saved, length-mark i ev.event_id l.events) in
      let apart : is_correcting ev ≡ true = correcting ∙ corrects in
      let here : find_target (target_id ev) l ≡ ok (some i) =
        ap (λ w. find_target w l) (named v known) ∙ found in
      let core : Ledger = record l { file = [] } in
      let there = find_target-by_id (target_id ev) core l refl ∙ here in
      let within : i < length start.events = rw d.raw (omega (arith, d.size)) in
      subst IsDurable (sym same) (
        after-IsDurable (mark i ev.event_id l.events) (length-mark i ev.event_id l.events)
          (λ c. (i, find_target-by_id (target_id ev) start l d.index ∙ here, within))
          (rebuild-correcting ev [] (added ev core) apart
              (find_target-added (target_id ev) ev core fresh there)
            ∙ unfold rebuild in (rw (mark-snoc i ev.event_id l.events ev inside) refl)))

write-IsDurable :
    (l : Ledger) (w : Result Event × Ledger)
    → Wrote l w
    → ((ev : Event)
        → w.0 ≡ ok ev
        → (t : EventType) × (target : Result Value) × LandsFresh t target ev l w.1
          × ((v : Value) → target ≡ ok v → target_id ev ≡ v))
    → IsDurable l
    → IsDurable w.1
write-IsDurable l (err e, l') same lands d = subst IsDurable (sym same) d
write-IsDurable l (ok ev, l') grown lands d =
    let (t, target, (lands', fresh, typed), named) = lands ev refl in
    Lands-IsDurable t target l ev d fresh typed named lands'

item-value_or :
    (p : Dict Value) (v : Value)
    → item "supersedes_event" p ≡ ok v
    → value_or (str "") (lookup "supersedes_event" p) ≡ v
item-value_or p v h = ground arith

module _ (F : Floats) (C : Crypto) where
  pub append-IsDurable :
      (s : Submission) (l : Ledger)
      → lookup s.fresh_id l.by_id ≡ none
      → IsDurable l
      → IsDurable (append F C s l).1
  append-IsDurable s l fresh = write-IsDurable l (append F C s l) (append-Wrote F C s l) (λ ev e.
      let (lands, payload) = append-LandsFresh F C s l fresh e in
      (
        s.event_type,
        item "supersedes_event" s.payload,
        lands,
        λ v h. rw payload (item-value_or s.payload v h),
      ))

  pub commit_prepared-IsDurable :
      (body : Body) (signature : String) (l : Ledger)
      → IsDurable l
      → IsDurable (commit_prepared F C body signature l).1
  commit_prepared-IsDurable body signature l =
      write-IsDurable l (commit_prepared F C body signature l)
        (commit_prepared-Wrote F C body signature l)
        (λ ev e.
          let (t, lands, payload) = commit_prepared-LandsFresh F C body signature l e in
          (
            t,
            ok (value_or (str "") (lookup "supersedes_event" body.payload)),
            lands,
            λ v h. rw payload cc,
          ))

pub IsDurable-empty :
    (registry : Registry) (path : Option String)
    → truthy_text path ≡ true
    → IsDurable (empty registry path)
unfolding read_events rebuild
IsDurable-empty registry path h = record {
  saved = h;
  raw = refl;
  size = refl;
  index = refl;
  targets = tt;
  relinked = refl;
}

-- ===== src/Ledger.antt =====
-- ledger.py: the append-only ledger. `_events` holds the event objects, and `_by_id` refers to
-- those same objects: a reference is a position in `_events`, so that an event which a correction
-- marks is seen as marked through both.
pub mod Queries
pub mod Audit
pub mod Load
pub mod History
pub mod Admission
pub mod WellFormed
pub mod Runs
pub mod Tests
use olivechain.Base.{
  ℕ, zero, suc, String, Bool, true, false, not, Option, none, some, List, [], ◌∷◌, ◌++◌, map, Dict,
  lookup, insert, contains, is_some, ◌==◌, any, filter, length, get_elem?, set, get_last?,
  if◌then◌else◌, ◌&&◌,
}
use olivechain.Crypto.{Crypto}
use olivechain.Json.{Value, Floats, float, Float, str, arr, obj, of_fields}
use olivechain.Json.Access.{item}
pub use olivechain.Base.Texts.{truthy_text}
use olivechain.Event.{Event, genesis_hash, signing_body, chained_hash}
use olivechain.Models.{
  EventType, Role, value, permissions, required_fields, role_in, of_value, is_correction,
}
use olivechain.Registry
use olivechain.Registry.{Registry, Organization, has_role_name}
use olivechain.Result.{
  Exception, Result, ok, err, permission_error, ledger_error, key_error, type_error, value_error,
}
use olivechain.Result as Raise
use olivechain.Effects.{Exec, pure, gets, reads, or_raise, raise_if, modify, ◌>>=◌, ◌>>◌}

pub record Ledger : Type 0 where
  pub registry : Registry
  pub path : Option String
  pub events : List Event
  pub by_id : Dict ℕ
  -- the lines of the file at `path`, each as the event that was written
  pub file : List Event

abbrev pub empty : Registry → Option String → Ledger
empty registry path = record {
  registry = registry;
  path = path;
  events = [];
  by_id = [];
  file = [];
}

abbrev last_hash : Option Event → String
last_hash none = genesis_hash
last_hash (some e) = e.event_hash

unfoldable pub head_hash : Ledger → String
head_hash l = last_hash (get_last? l.events)

-- `self._by_id.get(key)` at any JSON value: only a text can be a key, and a list or a dict cannot
-- be hashed.
pub find_target : Value → Ledger → Result (Option ℕ)
find_target (str id) l = ok (lookup id l.by_id)
find_target (arr vs) l = err (type_error "unhashable type" [])
find_target (obj fs) l = err (type_error "unhashable type" [])
find_target _ l = ok none

-- `e.superseded_by = id` on the object at position `i`
pub mark : ℕ → String → List Event → List Event
mark i id [] = []
mark zero id (e ∷ es) = (record e { superseded_by = some id }) ∷ es
mark (suc i) id (e ∷ es) = e ∷ mark i id es

-- The position of the event that a correction names, if the actor may correct it.
pub correctable : Value → String → Organization → Exec Ledger ℕ
unfolding find_target has_role_name
correctable target_id actor_org org = do
  found ← reads (find_target target_id)
  i ← or_raise found (ledger_error "correction targets unknown event" [])
  event ← gets (λ l. get_elem? l.events i)
  target ← or_raise event (ledger_error "correction targets unknown event" [])
  raise_if (not (target.actor_org == actor_org) && not (has_role_name org "authority"))
      (permission_error "only the original actor or an authority may correct an event" [])
  pure i

-- The branch of both `append` and `commit_prepared` on a correction.
pub supersede : Value → String → String → Organization → Exec Ledger (Unit {0})
unfolding correctable mark
supersede target_id actor_org event_id org = do
  i ← correctable target_id actor_org org
  modify (λ l. record l { events = mark i event_id l.events })

-- `self._events.append(ev)`, `self._by_id[...] = ev`, and the line in the file.
pub store : Event → Exec Ledger (Unit {0})
store ev = modify λ l. record l {
  events = l.events ++ ev ∷ [];
  by_id = insert ev.event_id (length l.events) l.by_id;
  file = if truthy_text l.path then l.file ++ ev ∷ [] else l.file;
}

abbrev pub text_or : String → Option String → String
text_or d none = d
text_or d (some s) = s

abbrev pub value_or : Value → Option Value → Value
value_or d none = d
value_or d (some v) = v

-- The end of both methods: a correction marks its target, then the event is stored. `target` is
-- the value under "supersedes_event", or the exception of reading it.
pub land : EventType → Result Value → Organization → Event → Exec Ledger Event
unfolding supersede store
land event_type target org ev = do
  (if is_correction event_type
      then (do v ← reads (λ l. target); supersede v ev.actor_org ev.event_id org)
      else pure tt)
  store ev
  pure ev

-- `[f for f in REQUIRED_FIELDS[event_type] if f not in payload]`
pub missing_fields : EventType → Dict Value → List String
missing_fields t payload = filter (λ f. not (contains f payload)) (required_fields t)

abbrev is_empty {ℓ} : {A : Type ℓ} → List A → Bool
is_empty [] = true
is_empty (x ∷ xs) = false

abbrev pub permitted : Organization → EventType → Bool
permitted org t = any (λ r. role_in r (permissions t)) org.roles

-- The arguments of a call of `append`, with what the clock and uuid4 return during it.
pub record Submission : Type 0 where
  pub event_type : EventType
  pub subject_id : String
  pub actor_org : String
  pub payload : Dict Value
  pub keypair : String
  pub evidence : List (Dict Value)
  pub timestamp : Option Float
  pub now : Float
  pub fresh_id : String

abbrev pub unsigned : Submission → String → Event
unsigned s prev = record {
  event_id = s.fresh_id;
  event_type = value s.event_type;
  subject_id = s.subject_id;
  actor_org = s.actor_org;
  timestamp = float (elim s.timestamp [ none ↦ s.now | some t ↦ t ]);
  payload = s.payload;
  actor_user = "";
  actor_wallet = "";
  evidence = s.evidence;
  prev_hash = prev;
  signature = "";
  event_hash = "";
  superseded_by = none;
}

module _ (F : Floats) (C : Crypto) where
  -- The checks and the signing of `append`, up to where it begins to write.
  pub prepare : Submission → Exec Ledger (Organization × Event)
  unfolding missing_fields
  prepare s = do
    org ← reads (λ l. Registry.get s.actor_org l.registry)
    raise_if (not (permitted org s.event_type))
        (permission_error "{} may not submit {}" (s.actor_org ∷ value s.event_type ∷ []))
    raise_if (not (is_empty (missing_fields s.event_type s.payload))) (
        ledger_error "{}: missing required fields {}"
          (value s.event_type ∷ missing_fields s.event_type s.payload))
    prev ← gets head_hash
    let body = signing_body F (unsigned s prev)
    let signed = record (unsigned s prev) { signature = C.sign s.keypair body }
    raise_if (not (C.verify_signature org.public_key body signed.signature))
        (ledger_error "signature does not match registered key of {}" (s.actor_org ∷ []))
    pure (org, record signed { event_hash = chained_hash F C signed })

  pub append : Submission → Exec Ledger Event
  append s = do
    checked ← prepare s
    land s.event_type (item "supersedes_event" s.payload) checked.0 checked.1

-- The body of the two-phase flow, with the keys and types that the API has checked.
pub record Body : Type 0 where
  pub event_id : String
  pub event_type : String
  pub subject_id : String
  pub actor_org : String
  pub timestamp : Value
  pub payload : Dict Value
  pub evidence : List (Dict Value)
  pub prev_hash : String

-- `Event(**body)`
abbrev pub of_body : Body → Event
of_body b = record {
  event_id = b.event_id;
  event_type = b.event_type;
  subject_id = b.subject_id;
  actor_org = b.actor_org;
  timestamp = b.timestamp;
  payload = b.payload;
  actor_user = "";
  actor_wallet = "";
  evidence = b.evidence;
  prev_hash = b.prev_hash;
  signature = "";
  event_hash = "";
  superseded_by = none;
}

module _ (F : Floats) (C : Crypto) where
  -- The checks of `commit_prepared`, up to where it begins to write.
  pub recheck : Body → String → Exec Ledger (EventType × Organization × Event)
  unfolding missing_fields
  recheck body signature = do
    event_type ← or_raise (of_value body.event_type) (ledger_error "unknown event type" [])
    org ← reads (λ l. Registry.get body.actor_org l.registry)
    raise_if (not (permitted org event_type))
        (permission_error "role not permitted to submit {}" (value event_type ∷ []))
    raise_if (not (is_empty (missing_fields event_type body.payload))) (
        ledger_error "{}: missing required fields {}"
          (value event_type ∷ missing_fields event_type body.payload))
    known ← gets (λ l. contains body.event_id l.by_id)
    raise_if known (ledger_error "event_id already on the ledger" [])
    head ← gets head_hash
    raise_if (not (body.prev_hash == head))
        (ledger_error "ledger advanced since prepare; call /events/prepare again" [])
    let signed = record (of_body body) { signature = signature }
    pure (event_type, org, record signed { event_hash = chained_hash F C signed })

  pub commit_prepared : Body → String → Exec Ledger Event
  commit_prepared body signature = do
    checked ← recheck body signature
    land checked.0 (ok (value_or (str "") (lookup "supersedes_event" body.payload))) checked.1
        checked.2

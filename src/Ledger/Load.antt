-- ===== src/Ledger/Load.antt =====
-- `_load` of ledger.py: the events are read back from the file, and the pointers of supersession
-- are rebuilt.
pub mod Relinking
pub mod Recovery
use olivechain.Base.{
  String, Option, none, some, List, [], ◌∷◌, ◌++◌, lookup, insert, ◌==◌, length, if◌then◌else◌,
}
use olivechain.Json.{str}
use olivechain.Event.{Event}
use olivechain.Models.{EventType, value}
use olivechain.Registry.{Registry}
use olivechain.Ledger.{Ledger, empty, find_target, mark, value_or}
use olivechain.Result.{Result, ok, ◌>>=◌}

-- The first loop, over the lines that are not blank.
pub read_events : List Event → Ledger → Ledger
read_events [] l = l
read_events (ev ∷ evs) l = read_events evs (record l {
  events = l.events ++ ev ∷ [];
  by_id = insert ev.event_id (length l.events) l.by_id;
})

pub relink : Event → Ledger → Result Ledger
unfolding find_target mark
relink ev l = do
  found ← find_target (value_or (str "") (lookup "supersedes_event" ev.payload)) l
  ok (elim found [ none ↦ l | some i ↦ record l { events = mark i ev.event_id l.events } ])

-- The second loop.
pub rebuild : List Event → Ledger → Result Ledger
unfolding relink value
rebuild [] l = ok l
rebuild (ev ∷ evs) l = do
  l' ← (if ev.event_type == value EventType.correction then relink ev l else ok l)
  rebuild evs l'

unfoldable pub load : Registry → Option String → List Event → Result Ledger
unfolding read_events rebuild
load registry path file = do
  l ← (let read = read_events file (empty registry path) in rebuild read.events read)
  ok (record l { file = file })

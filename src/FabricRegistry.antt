-- ===== src/FabricRegistry.antt =====
-- fabric_registry.py: the organizations of the local registry before those of the network, which are
-- kept for a while. What the agent answers to GetOrganizations is an argument: none, if it fails.
pub mod Rows
pub mod Outage
pub mod Tests
use olivechain.Base.{
  ℕ, ◌+◌, String, Bool, false, not, ◌&&◌, Option, none, some, List, [], ◌∷◌, Dict, lookup, insert,
  update, map, ltb, if◌then◌else◌,
}
use olivechain.Crypto.{Crypto}
use olivechain.Effects.{Exec, pure, reads, gets, modify, or_raise, ◌>>=◌, ◌>>◌}
use olivechain.Json.{Value}
use olivechain.Models.{Role}
use olivechain.Registry
use olivechain.Registry.{Registry, Organization}
use olivechain.Result.{Result, ok, err, permission_error}
use olivechain.FabricRegistry.Rows.{orgs_of_rows}

pub record FabricRegistry : Type 0 where
  pub local : Registry
  pub cache_seconds : ℕ
  pub fabric_orgs : Dict Organization
  -- the monotonic clock, at the last answer or failure
  pub loaded_at : ℕ

unfoldable pub register :
    Crypto → String → String → String → List Role → Dict Value → Exec FabricRegistry String
register C private_key org_id name roles metadata s =
    let (r, local) = Registry.register C private_key org_id name roles metadata s.local in
    (r, record s { local = local })

-- Asking the agent, and keeping what it answers; a failure leaves what there is for as long.
unfoldable pub load_orgs : ℕ → Option (List Value) → Exec FabricRegistry (Unit {0})
unfolding orgs_of_rows
load_orgs now none = modify (λ s. record s { loaded_at = now })
load_orgs now (some rows) = reads (λ s. orgs_of_rows [] rows) >>= λ orgs.
    modify (λ s. record s { fabric_orgs = orgs; loaded_at = now })

-- `_refresh`
unfoldable pub refresh : Bool → ℕ → Option (List Value) → Exec FabricRegistry (Unit {0})
unfolding load_orgs
refresh force now answer s =
    if not force && ltb now (s.loaded_at + s.cache_seconds)
    then (ok tt, s)
    else load_orgs now answer s

-- What is found of the network's organizations.
unfoldable pub cached : String → FabricRegistry → Result Organization
cached org_id s = elim (lookup org_id s.fabric_orgs) [
  | none ↦ err (permission_error "unknown organization: {}" (org_id ∷ []))
  | some org ↦ ok org
]

-- What the local registry says, and where it raises, as it does for an unknown organization only,
-- the network's.
unfoldable pub or_cached :
    String → ℕ → Option (List Value) → Result Organization → Exec FabricRegistry Organization
unfolding refresh cached
or_cached org_id now answer (ok org) = pure org
or_cached org_id now answer (err e) = refresh false now answer >> reads (cached org_id)

unfoldable pub get : String → ℕ → Option (List Value) → Exec FabricRegistry Organization
unfolding or_cached
get org_id now answer s = or_cached org_id now answer (Registry.get org_id s.local) s

abbrev by_id : Dict Organization → Dict Organization
by_id orgs = update [] (map (λ e. (e.1.org_id, e.1)) orgs)

-- `all`: a local organization takes the place of the network's of the same id.
unfoldable pub all : ℕ → Option (List Value) → Exec FabricRegistry (List Organization)
unfolding refresh
all now answer =
    refresh false now answer
    >> gets (λ s. map (λ e. e.1) (update (by_id s.fabric_orgs) (by_id s.local.orgs)))

-- ===== src/FabricRegistry/Outage.antt =====
-- The registry while the network does not answer.
use olivechain.Base.{ℕ, ◌+◌, String, none, ◌≡◌, refl, ltb}
use olivechain.Base.Filter.{if-elim}
use olivechain.Registry
use olivechain.Registry.{Organization}
use olivechain.Result.{Result, ok, err}
use olivechain.FabricRegistry.{FabricRegistry, get, or_cached, refresh, load_orgs, cached}

-- The same organizations, with the time of another attempt.
pub record HasKept (before after : FabricRegistry) : Type 0 where
  pub local : after.local ≡ before.local
  pub fabric_orgs : after.fabric_orgs ≡ before.fabric_orgs
  pub cache_seconds : after.cache_seconds ≡ before.cache_seconds

-- What the local registry has, else what was kept of the network's.
abbrev pub first_of : String → FabricRegistry → Result Organization → Result Organization
first_of org_id s (ok org) = ok org
first_of org_id s (err e) = cached org_id s

abbrev then_reads :
    String → Result (Unit {0}) × FabricRegistry → Result Organization × FabricRegistry
then_reads org_id (r, s) = elim r [ ok done ↦ (cached org_id s, s) | err e ↦ (err e, s) ]

kept : (now : ℕ) (s : FabricRegistry) → HasKept s (record s { loaded_at = now })
kept now s = record { local = refl; fabric_orgs = refl; cache_seconds = refl }

in_outage :
    (org_id : String) (now : ℕ) (s : FabricRegistry) (r : Result Organization)
    → ((or_cached org_id now none r s).0 ≡ first_of org_id s r)
      × HasKept s (or_cached org_id now none r s).1
unfolding or_cached refresh load_orgs cached
in_outage org_id now s (ok org) =
    (refl, record { local = refl; fabric_orgs = refl; cache_seconds = refl })
in_outage org_id now s (err e) =
    if-elim
      (λ (p : Result (Unit {0}) × FabricRegistry).
        ((then_reads org_id p).0 ≡ cached org_id s) × HasKept s (then_reads org_id p).1)
      (ltb now (s.loaded_at + s.cache_seconds)) (ok tt, s) (ok tt, record s { loaded_at = now })
      (λ fresh. (refl, record { local = refl; fabric_orgs = refl; cache_seconds = refl }))
      λ stale. (refl, kept now s)

-- While the agent fails, at any time and whether the cache has run out or not, get finds a local
-- organization first and else one that an earlier answer had, raises for one that neither has, and
-- changes no organization.
pub get-HasKept :
    (org_id : String) (now : ℕ) (s : FabricRegistry)
    → ((get org_id now none s).0 ≡ first_of org_id s (Registry.get org_id s.local))
      × HasKept s (get org_id now none s).1
unfolding get
get-HasKept org_id now s = in_outage org_id now s (Registry.get org_id s.local)

-- ===== src/FabricRegistry/Tests.antt =====
-- A registry that has heard of one organization of the network.
use olivechain.Base.{none, some, [], ◌∷◌, lookup, insert, ◌≡◌, refl}
use olivechain.Json.{Value, str, arr, to_items, dict_value, to_fields, of_fields, of_items}
use olivechain.Registry
use olivechain.Registry.{Organization}
use olivechain.Result.{ok}
use olivechain.World.{registry}
use olivechain.FabricRegistry.{FabricRegistry, get}
use olivechain.FabricRegistry.Outage.{HasKept, first_of, get-HasKept}

abbrev unheard : FabricRegistry
unheard = record { local = registry; cache_seconds = 5; fabric_orgs = []; loaded_at = 0 }

abbrev row : Value
row =
    dict_value (
      ("org_id", str "maker-org")
      ∷ ("roles", arr (to_items (str "mill" ∷ str "no role" ∷ [])))
      ∷ [])

abbrev heard : FabricRegistry
heard = (get "maker-org" 10 (some (row ∷ [])) unheard).1

-- The organization is made of the row once the agent answers.
finds_maker : (org : Organization) × ((get "maker-org" 10 (some (row ∷ [])) unheard).0 ≡ ok org)
unfolding get Registry.get lookup insert to_fields of_fields to_items of_items
finds_maker = (_, refl)

get-HasKept_example :
    ((get "maker-org" 100 none heard).0
      ≡ first_of "maker-org" heard (Registry.get "maker-org" heard.local))
    × HasKept heard (get "maker-org" 100 none heard).1
get-HasKept_example = get-HasKept "maker-org" 100 heard

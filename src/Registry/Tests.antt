-- ===== src/Registry/Tests.antt =====
-- The first organization of a new registry.
use olivechain.Base.{◌≡◌, refl, some, [], ◌∷◌}
use olivechain.Models.{Role}
use olivechain.Result.{ok}
use olivechain.World.{crypto}
use olivechain.Registry.{Registry, register, saved_entries, load}
use olivechain.Registry.Recovery.{IsSaved, register-restart}

abbrev new : Registry
new = record { path = some "registry.json"; orgs = []; file = [] }

new-IsSaved : IsSaved new
unfolding saved_entries
new-IsSaved = record { apart = tt; file = refl }

register-restart_example :
    (let r' = (register crypto "farm-key" "farm" "Farm" (Role.farmer ∷ []) [] new).1 in
      IsSaved r' × (load r'.path r'.file ≡ ok r'))
register-restart_example =
    register-restart crypto "farm-key" "farm" "Farm" (Role.farmer ∷ []) [] new refl new-IsSaved

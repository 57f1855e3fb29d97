-- ===== src/Passport/Shown.antt =====
-- What a passport shows of the ledger.
use olivechain.Base.{Option, none, some, List, [], ◌∷◌, lookup, ◌≡◌}
use olivechain.Crypto.{Crypto}
use olivechain.Json.{Float, Floats}
use olivechain.Event.{Event}
use olivechain.Registry
use olivechain.Registry.{Organization}
use olivechain.Ledger.{Ledger}
use olivechain.Ledger.Queries.{payload_of}
use olivechain.Evidence
use olivechain.Evidence.{Files}
use olivechain.Result.{Result, ok, map_result}
use olivechain.Passport.{Stage, Passport, stage_labels, proof_of}

module _ (F : Floats) (C : Crypto) (O : Evidence.PathLibrary) where
  -- A stage with what the ledger, the registry and the store say of its event.
  pub record IsStageOf (store : Option Files) (l : Ledger) (e : Event) (s : Stage) : Type 0 where
    pub org : Organization
    pub known : Registry.get e.actor_org l.registry ≡ ok org
    pub by : s.by ≡ org.name
    pub event_type : s.event_type ≡ e.event_type
    pub timestamp : s.timestamp ≡ e.timestamp
    pub details : payload_of l e ≡ ok s.details
    pub evidence : map_result (proof_of F C O store) e.evidence ≡ ok s.evidence

  -- Stages are the events that have a label, in the order of the events.
  pub data AreStages (store : Option Files) (l : Ledger)
      : List (Float × Event) → List Stage → Type 0 where
    no_stages : AreStages store l [] []
    passed_over :
        {t : Float} {e : Event} {es : List (Float × Event)} {ss : List Stage}
        → lookup e.event_type stage_labels ≡ none
        → AreStages store l es ss
        → AreStages store l ((t, e) ∷ es) ss
    shown :
        {t : Float} {e : Event} {s : Stage} {es : List (Float × Event)} {ss : List Stage}
        → lookup e.event_type stage_labels ≡ some s.stage
        → IsStageOf store l e s
        → AreStages store l es ss
        → AreStages store l ((t, e) ∷ es) (s ∷ ss)

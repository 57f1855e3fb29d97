-- ===== src/Passport.antt =====
-- passport.py: a batch's passport, put together from the ledger, the registry, the balances of the
-- residue lots and the store of evidence.
pub mod ByTime
pub mod Shown
pub mod Tests
use olivechain.Base.{
  ℕ, String, Bool, true, false, not, ◌&&◌, Option, none, some, List, [], ◌∷◌, ◌++◌, Dict, lookup,
  filter, find, map, any, length, is_some, eqb, ◌==◌, if◌then◌else◌,
}
use olivechain.Base.Int.{pos}
use olivechain.Crypto.{Crypto}
use olivechain.Json.{
  Value, Fields, Items, Float, Floats, null, boolean, int, float, str, obj, arr, nil, cons, end,
  field, of_fields, of_items, to_fields,
}
use olivechain.Json.Access.{iterated, item, get_or, truthy, is_text, hashable, same_key}
use olivechain.Event.{Event}
use olivechain.Models.{EventType, value, role_value}
use olivechain.Registry
use olivechain.Registry.{Organization}
use olivechain.Ledger.{Ledger}
use olivechain.Ledger.Queries.{for_subject, iter_type, payload_of}
use olivechain.Ledger.Audit.{Problem, verify_chain}
use olivechain.MassBalance.{Reconciliation, reconcile_residue}
use olivechain.Evidence
use olivechain.Evidence.{Files}
use olivechain.Portal.Rows.{row_get}
use olivechain.Result.{Result, ok, err, type_error, permission_error, map_result, ◌>>=◌}

-- `STAGE_LABELS`
unfoldable pub stage_labels : Dict String
unfolding value
stage_labels =
    (value EventType.cultivation, "Grown")
    ∷ (value EventType.harvest, "Harvested")
    ∷ (value EventType.collection_transport, "Collected")
    ∷ (value EventType.milling, "Milled")
    ∷ (value EventType.lab_verification, "Quality verified")
    ∷ (value EventType.bottling, "Bottled")
    ∷ (value EventType.distribution_retail, "Shipped to market")
    ∷ []

-- An artifact, and whether it is intact, where there is a store to look in.
pub record Proof : Type 0 where
  pub name : Value
  pub sha256 : Value
  pub intact : Option Bool

pub record Stage : Type 0 where
  pub stage : String
  pub event_type : String
  pub by : String
  pub org_roles : List String
  pub timestamp : Value
  pub details : Dict Value
  pub evidence : List Proof
  pub corrected : Bool

pub record Circle : Type 0 where
  pub residue_type : Value
  pub balance : Reconciliation

pub record Earned : Type 0 where
  pub recipient : String
  pub amount : Value
  pub rule : Value

pub record Passport : Type 0 where
  pub batch_id : String
  pub ledger_verified : Bool
  pub ledger_problems : List Problem
  pub stages : List Stage
  pub circular : List Circle
  pub rewards : List Earned
  pub consumer_scans : ℕ

module _ (F : Floats) where
  -- `v == w`
  mutual
    unfolding of_fields

    same_value : Value → Value → Bool
    same_value (arr vs) (arr ws) = same_items vs ws
    same_value (obj fs) (obj gs) =
        eqb (length (of_fields fs)) (length (of_fields gs)) && same_fields fs gs
    same_value v w = same_key F v w

    same_items : Items → Items → Bool
    same_items nil nil = true
    same_items (cons v vs) (cons w ws) = same_value v w && same_items vs ws
    same_items _ _ = false

    same_fields : Fields → Fields → Bool
    same_fields end gs = true
    same_fields (field k v fs) gs =
        (elim (lookup k (of_fields gs)) [ none ↦ false | some w ↦ same_value v w ])
        && same_fields fs gs

  -- A timestamp as a number; texts, which Python would compare as texts, raise here.
  unfoldable pub time_of : Event → Result Float
  time_of e = elim e.timestamp [
    | float x ↦ ok x
    | int n ↦ ok (F.of_int n)
    | _ ↦ err (type_error "'<' not supported between timestamps" [])
  ]

  unfoldable pub insert_timed : Float × Event → List (Float × Event) → List (Float × Event)
  insert_timed e [] = e ∷ []
  insert_timed e (x ∷ xs) = if F.lt x.0 e.0 then x ∷ insert_timed e xs else e ∷ x ∷ xs

  -- `sorted(events, key=lambda e: e.timestamp)`, which is stable
  unfoldable pub by_time : List Event → Result (List (Float × Event))
  unfolding time_of insert_timed
  by_time [] = ok []
  by_time (e ∷ es) = time_of e >>= λ t. by_time es >>= λ rest. ok (insert_timed (t, e) rest)

module _ (F : Floats) (C : Crypto) (O : Evidence.PathLibrary) where
  unfoldable pub proof_of : Option Files → Dict Value → Result Proof
  proof_of none ref = do
    name ← item "name" ref
    sha256 ← item "sha256" ref
    ok (record { name = name; sha256 = sha256; intact = none })
  proof_of (some files) ref = do
    intact ← Evidence.verify O C ref files
    name ← item "name" ref
    sha256 ← item "sha256" ref
    ok (record { name = name; sha256 = sha256; intact = some intact })

  unfoldable pub stage_of : Option Files → Ledger → Event → String → Result Stage
  unfolding proof_of same_value role_value
  stage_of store l e label = do
    p ← payload_of l e
    org ← Registry.get e.actor_org l.registry
    proofs ← map_result (proof_of store) e.evidence
    ok (record {
      stage = label;
      event_type = e.event_type;
      by = org.name;
      org_roles = map role_value org.roles;
      timestamp = e.timestamp;
      details = p;
      evidence = proofs;
      corrected = not (same_value F (obj (to_fields e.payload)) (obj (to_fields p)));
    })

  -- The ids of the residues that a milling declares; one that is no text raises here.
  unfoldable pub declared_ids : List Value → Result (List String)
  unfolding row_get
  declared_ids [] = ok []
  declared_ids (r ∷ rs) = do
    id ← row_get null "residue_id" r
    rest ← declared_ids rs
    (if truthy F id
        then (elim id [ str s ↦ ok (s ∷ rest) | _ ↦ err (type_error "residue_id is no text" []) ])
        else ok rest)

  unfoldable pub residues_of : Event → Dict Value → Result (List String)
  unfolding declared_ids iterated value
  residues_of e p =
      if e.event_type == value EventType.milling
      then (iterated (get_or (arr nil) "residues_declared" p) >>= λ rs. declared_ids rs)
      else ok []

  -- One round of the loop over the batch's events: one without a label is passed over.
  unfoldable pub with_stage :
      Option Files
      → Ledger
      → Event
      → Option String
      → Result (List Stage × List String)
      → Result (List Stage × List String)
  unfolding stage_of residues_of
  with_stage store l e none later = later
  with_stage store l e (some label) later = stage_of store l e label >>= λ stage.
      residues_of e stage.details >>= λ ids. later >>= λ rest. ok (stage ∷ rest.0, ids ++ rest.1)

  unfoldable pub stages_of :
      Option Files → Ledger → List (Float × Event) → Result (List Stage × List String)
  unfolding with_stage stage_labels
  stages_of store l [] = ok ([], [])
  stages_of store l ((t, e) ∷ es) =
      with_stage store l e (lookup e.event_type stage_labels) (stages_of store l es)

  -- DEFAULT_TOLERANCE of massbalance.py
  abbrev default_tolerance : Float
  default_tolerance = F.of_milli 50

  unfoldable pub circle_of : Ledger → String → Result Circle
  unfolding value
  circle_of l rid = do
    balance ← reconcile_residue F default_tolerance l rid
    residue_type ←
        (elim (find (λ e. e.event_type == value EventType.residue_generation)
          (for_subject l rid false)) [
            | none ↦ ok null
            | some e ↦ payload_of l e >>= λ p. ok (get_or null "residue_type" p)
          ])
    ok (record { residue_type = residue_type; balance = balance })

  -- The events of the lots that are not superseded.
  abbrev lots : Ledger → List String → List Event
  lots l [] = []
  lots l (rid ∷ rids) = for_subject l rid false ++ lots l rids

  -- The events that a reward of the batch rests on.
  unfoldable pub basis_ids : Ledger → String → List String → List String
  basis_ids l batch_id rids = map (λ e. e.event_id) (for_subject l batch_id true ++ lots l rids)

  -- Whether one of the events that a reward rests on is among the ids.
  unfoldable pub rests_on : List String → Dict Value → Result Bool
  unfolding iterated
  rests_on ids payload = do
    basis ← item "basis_events" payload
    vs ← iterated basis
    keys ← map_result hashable vs
    ok (any (λ v. any (λ id. is_text id v) ids) keys)

  unfoldable pub named_org : Ledger → Value → Result Organization
  named_org l (str s) = Registry.get s l.registry
  named_org l v = err (permission_error "unknown organization" [])

  unfoldable pub rewards_of : Ledger → List String → List Event → Result (List Earned)
  unfolding rests_on named_org
  rewards_of l ids [] = ok []
  rewards_of l ids (e ∷ es) = do
    earned ← rests_on ids e.payload
    (if earned
        then (do
          recipient ← item "recipient" e.payload
          org ← named_org l recipient
          amount ← item "amount" e.payload
          rule ← item "reward_rule" e.payload
          rest ← rewards_of l ids es
          ok (record { recipient = org.name; amount = amount; rule = rule } ∷ rest))
        else rewards_of l ids es)

  unfoldable pub build_passport : Option Files → Ledger → String → Result Passport
  unfolding by_time stages_of circle_of rewards_of
  build_passport store l batch_id = do
    (chain_ok, problems) ← verify_chain F C l
    timed ← by_time F (for_subject l batch_id true)
    (stages, residue_ids) ← stages_of store l timed
    circular ← map_result (circle_of l) residue_ids
    rewards ← rewards_of l (basis_ids l batch_id residue_ids) (iter_type l EventType.reward_issued)
    ok (record {
      batch_id = batch_id;
      ledger_verified = chain_ok;
      ledger_problems = problems;
      stages = stages;
      circular = circular;
      rewards = rewards;
      consumer_scans =
          length
            (filter (λ e. e.subject_id == batch_id) (iter_type l EventType.consumer_verification));
    })

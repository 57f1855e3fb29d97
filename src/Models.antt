-- ===== src/Models.antt =====
-- models.py: the roles, the event types, and the tables that say who may submit what.
pub mod Names
use olivechain.Base.{String, Bool, true, false, Option, List, [], ◌∷◌, ◌==◌, any, find}

pub data Role : Type 0 where
  farmer collector mill laboratory bottler distributor retailer processor authority consumer : Role

-- `role.value`
unfoldable pub role_value : Role → String
role_value Role.farmer = "farmer"
role_value Role.collector = "collector"
role_value Role.mill = "mill"
role_value Role.laboratory = "laboratory"
role_value Role.bottler = "bottler"
role_value Role.distributor = "distributor"
role_value Role.retailer = "retailer"
role_value Role.processor = "processor"
role_value Role.authority = "authority"
role_value Role.consumer = "consumer"

abbrev pub roles : List Role
roles =
    Role.farmer ∷ Role.collector ∷ Role.mill ∷ Role.laboratory ∷ Role.bottler ∷ Role.distributor
    ∷ Role.retailer ∷ Role.processor ∷ Role.authority ∷ Role.consumer ∷ []

pub data EventType : Type 0 where
  cultivation harvest collection_transport milling lab_verification bottling : EventType
  distribution_retail consumer_verification : EventType
  residue_generation residue_custody valorization useful_output return_or_sale : EventType
  env_accounting correction reward_issued review_flag review_resolution : EventType

-- `event_type.value`
unfoldable pub value : EventType → String
value EventType.cultivation = "cultivation"
value EventType.harvest = "harvest"
value EventType.collection_transport = "collection_transport"
value EventType.milling = "milling"
value EventType.lab_verification = "lab_verification"
value EventType.bottling = "bottling"
value EventType.distribution_retail = "distribution_retail"
value EventType.consumer_verification = "consumer_verification"
value EventType.residue_generation = "residue_generation"
value EventType.residue_custody = "residue_custody"
value EventType.valorization = "valorization"
value EventType.useful_output = "useful_output"
value EventType.return_or_sale = "return_or_sale"
value EventType.env_accounting = "env_accounting"
value EventType.correction = "correction"
value EventType.reward_issued = "reward_issued"
value EventType.review_flag = "review_flag"
value EventType.review_resolution = "review_resolution"

abbrev pub event_types : List EventType
event_types =
    EventType.cultivation ∷ EventType.harvest ∷ EventType.collection_transport ∷ EventType.milling
    ∷ EventType.lab_verification ∷ EventType.bottling ∷ EventType.distribution_retail
    ∷ EventType.consumer_verification ∷ EventType.residue_generation ∷ EventType.residue_custody
    ∷ EventType.valorization ∷ EventType.useful_output ∷ EventType.return_or_sale
    ∷ EventType.env_accounting ∷ EventType.correction ∷ EventType.reward_issued
    ∷ EventType.review_flag ∷ EventType.review_resolution ∷ []

-- `EventType(text)` and `Role(text)`; `none` is the ValueError.
unfoldable pub of_value : String → Option EventType
unfolding value
of_value s = find (λ t. value t == s) event_types

unfoldable pub role_of_value : String → Option Role
unfolding role_value
role_of_value s = find (λ r. role_value r == s) roles

-- Members of a `str` enum are compared as texts.
unfoldable pub role_in : Role → List Role → Bool
unfolding role_value
role_in r rs = any (λ a. role_value a == role_value r) rs

-- `event_type is EventType.CORRECTION`
abbrev pub is_correction : EventType → Bool
is_correction EventType.correction = true
is_correction _ = false

-- PERMISSIONS
unfoldable pub permissions : EventType → List Role
permissions EventType.cultivation = Role.farmer ∷ []
permissions EventType.harvest = Role.farmer ∷ []
permissions EventType.collection_transport = Role.collector ∷ []
permissions EventType.milling = Role.mill ∷ []
permissions EventType.lab_verification = Role.laboratory ∷ []
permissions EventType.bottling = Role.bottler ∷ []
permissions EventType.distribution_retail = Role.distributor ∷ Role.retailer ∷ []
permissions EventType.consumer_verification = Role.consumer ∷ Role.retailer ∷ []
permissions EventType.residue_generation = Role.mill ∷ []
permissions EventType.residue_custody = Role.collector ∷ Role.processor ∷ []
permissions EventType.valorization = Role.processor ∷ []
permissions EventType.useful_output = Role.processor ∷ []
permissions EventType.return_or_sale = Role.processor ∷ Role.distributor ∷ []
permissions EventType.env_accounting = Role.authority ∷ Role.processor ∷ []
permissions EventType.correction = roles
permissions EventType.reward_issued = Role.authority ∷ []
permissions EventType.review_flag = Role.authority ∷ []
permissions EventType.review_resolution = Role.authority ∷ []

-- REQUIRED_FIELDS
unfoldable pub required_fields : EventType → List String
required_fields EventType.cultivation = "farm_id" ∷ "plot_id" ∷ "cultivar" ∷ "practices" ∷ []
required_fields EventType.harvest = "date" ∷ "quantity_kg" ∷ "method" ∷ "location" ∷ []
required_fields EventType.collection_transport =
    "from_org" ∷ "to_org" ∷ "weight_kg" ∷ "container_ids" ∷ []
required_fields EventType.milling =
    "received_kg" ∷ "extraction_method" ∷ "temperature_c" ∷ "oil_yield_l" ∷ "residues_declared" ∷ []
required_fields EventType.lab_verification = "quality_class" ∷ "results" ∷ []
required_fields EventType.bottling = "lot_id" ∷ "bottle_count" ∷ "fill_date" ∷ "label_claims" ∷ []
required_fields EventType.distribution_retail = "from_org" ∷ "to_org" ∷ "destination" ∷ []
required_fields EventType.consumer_verification = "channel" ∷ []
required_fields EventType.residue_generation =
    "residue_type" ∷ "weight_kg" ∷ "moisture_pct" ∷ "origin_batch" ∷ []
required_fields EventType.residue_custody =
    "residue_id" ∷ "weight_kg" ∷ "measurement_method" ∷ "from_org" ∷ "to_org" ∷ "accepted" ∷ []
required_fields EventType.valorization =
    "residue_id" ∷ "input_kg" ∷ "method" ∷ "outputs" ∷ "rejected_kg" ∷ []
required_fields EventType.useful_output = "residue_id" ∷ "output_type" ∷ "quantity" ∷ "unit" ∷ []
required_fields EventType.return_or_sale =
    "residue_id" ∷ "output_type" ∷ "quantity" ∷ "unit" ∷ "destination" ∷ []
required_fields EventType.env_accounting =
    "residue_id" ∷ "recovery_pct" ∷ "avoided_disposal_kg" ∷ []
required_fields EventType.correction = "supersedes_event" ∷ "reason" ∷ "corrected_payload" ∷ []
required_fields EventType.reward_issued =
    "recipient" ∷ "amount" ∷ "reward_rule" ∷ "basis_events" ∷ []
required_fields EventType.review_flag = "subject_event" ∷ "rule" ∷ "detail" ∷ []
required_fields EventType.review_resolution = "flag_event" ∷ "decision" ∷ "rationale" ∷ []

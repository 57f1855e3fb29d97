-- ===== src/Workflow/Steps.antt =====
-- The steps of the two workflows of workflow.py, with their labels.
use olivechain.Base.{
  ℕ, suc, String, Bool, Option, none, some, List, [], ◌∷◌, ◌==◌, any, get_elem?, if◌then◌else◌,
}

pub data Workflow : Type 0 where
  product circular : Workflow

abbrev pub product_steps : List String
product_steps =
    "cultivation" ∷ "harvest" ∷ "collection_transport" ∷ "milling" ∷ "lab_verification" ∷ "bottling"
    ∷ "distribution_retail" ∷ []

abbrev pub circular_steps : List String
circular_steps =
    "residue_generation" ∷ "residue_custody" ∷ "valorization" ∷ "useful_output" ∷ "return_or_sale"
    ∷ "env_accounting" ∷ []

-- The labels, in the order of the steps that they belong to.
abbrev pub product_labels : List String
product_labels =
    "Farming recorded" ∷ "Harvest recorded" ∷ "Olives transported" ∷ "Olives milled"
    ∷ "Quality verified" ∷ "Oil bottled" ∷ "Delivered to seller" ∷ []

abbrev pub circular_labels : List String
circular_labels =
    "Residue generated" ∷ "Residue in custody transfer" ∷ "Residue valorized"
    ∷ "Useful output recorded" ∷ "Output returned or sold" ∷ "Environmental accounting complete"
    ∷ []

abbrev pub steps_of : Workflow → List String
steps_of product = product_steps
steps_of circular = circular_steps

abbrev pub labels_of : Workflow → List String
labels_of product = product_labels
labels_of circular = circular_labels

abbrev pub workflow_name : Workflow → String
workflow_name product = "product"
workflow_name circular = "circular"

-- `text in texts`
abbrev pub text_in : String → List String → Bool
text_in s texts = any (λ t. t == s) texts

-- `_workflow_for_type`
unfoldable pub workflow_for_type : String → Option Workflow
workflow_for_type event_type =
    if text_in event_type product_steps
    then some product
    else if text_in event_type circular_steps
    then some circular
    else none

-- `steps.index(event_type)`; the length where the step is missing, which is never asked.
unfoldable pub index : String → List String → ℕ
index s [] = 0
index s (t ∷ ts) = let later = suc (index s ts) in if t == s then 0 else later

-- `steps[k]`
abbrev pub at : ℕ → List String → String
at k steps = elim (get_elem? steps k) [ none ↦ "" | some s ↦ s ]

-- ===== src/FabricRegistry/Rows.antt =====
-- The organizations that fabric_registry.py makes of the rows of an answer.
use olivechain.Base.{String, none, some, List, [], ◌∷◌, Dict, insert}
use olivechain.Json.{Value, null, str, arr, obj, nil, end, of_fields}
use olivechain.Json.Access.{iterated, value_item}
use olivechain.Models.{Role, role_of_value}
use olivechain.Registry.{Organization}
use olivechain.Portal.Rows.{row_get}
use olivechain.Result.{Result, ok, err, type_error, ◌>>=◌}

-- Names that are no role are passed over.
unfoldable pub known_roles : List Value → List Role
unfolding role_of_value
known_roles [] = []
known_roles (str s ∷ vs) = elim (role_of_value s) [
  | none ↦ known_roles vs
  | some r ↦ r ∷ known_roles vs
]
known_roles (v ∷ vs) = known_roles vs

-- A name or an id that is no text, and metadata that is no dict, raise here.
unfoldable pub name_text : Value → Result String
name_text (str s) = ok s
name_text v = err (type_error "no text" [])

unfoldable pub metadata_of : Value → Value → Result (Dict Value)
metadata_of (obj fs) msp_id = ok (insert "msp_id" msp_id (of_fields fs))
metadata_of v msp_id = err (type_error "object is not a mapping" [])

unfoldable pub org_of_row : Value → Result Organization
unfolding row_get iterated known_roles name_text metadata_of
org_of_row row = do
  listed ← row_get (arr nil) "roles" row
  names ← iterated listed
  id ← value_item "org_id" row
  org_id ← name_text id
  called ← row_get id "name" row
  name ← name_text called
  stated ← row_get (obj end) "metadata" row
  msp_id ← row_get null "msp_id" row
  metadata ← metadata_of stated msp_id
  ok (record {
    org_id = org_id;
    name = name;
    roles = known_roles names;
    public_key = "";
    metadata = metadata;
  })

unfoldable pub orgs_of_rows : Dict Organization → List Value → Result (Dict Organization)
unfolding org_of_row
orgs_of_rows orgs [] = ok orgs
orgs_of_rows orgs (row ∷ rows) =
    org_of_row row >>= λ org. orgs_of_rows (insert org.org_id org orgs) rows

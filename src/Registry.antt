-- ===== src/Registry.antt =====
-- registry.py: the organizations, their roles and public keys, and the file that keeps them.
-- A fresh key pair is an argument of `register`, as the text of its private key.
pub mod Recovery
pub mod Tests
use olivechain.Base.{
  String, Bool, Option, none, some, List, [], ◌∷◌, map, Dict, lookup, insert, ◌==◌, any,
  if◌then◌else◌,
}
use olivechain.Base.Texts.{truthy_text}
use olivechain.Crypto.{Crypto}
use olivechain.Json.{Value}
use olivechain.Models.{Role, role_value, role_of_value}
use olivechain.Result.{value_error, permission_error, Result, ok, or_raise, map_result, ◌>>=◌}
use olivechain.Effects.{Exec}

pub record Organization : Type 0 where
  pub org_id : String
  pub name : String
  pub roles : List Role
  pub public_key : String
  pub metadata : Dict Value

-- An organization as the file holds it, under its id.
pub record SavedOrg : Type 0 where
  pub name : String
  pub roles : List String
  pub public_key : String
  pub metadata : Dict Value

pub record Registry : Type 0 where
  pub path : Option String
  pub orgs : Dict Organization
  -- the file at `path`
  pub file : Dict SavedOrg

unfoldable pub has_role_name : Organization → String → Bool
unfolding role_value
has_role_name org name = any (λ r. role_value r == name) org.roles

pub saved : Organization → SavedOrg
unfolding role_value
saved o = record {
  name = o.name;
  roles = map role_value o.roles;
  public_key = o.public_key;
  metadata = o.metadata;
}

pub saved_entries : Dict Organization → Dict SavedOrg
unfolding saved
saved_entries [] = []
saved_entries ((oid, o) ∷ os) = (oid, saved o) ∷ saved_entries os

pub save : Registry → Registry
unfolding saved_entries
save r = if truthy_text r.path then record r { file = saved_entries r.orgs } else r

pub register : Crypto → String → String → String → List Role → Dict Value → Exec Registry String
unfolding save
register C private_key org_id name roles metadata r = elim (lookup org_id r.orgs) [
  | some o ↦ (Result.err (value_error "organization {} already registered" (org_id ∷ [])), r)
  | none ↦ (
    ok private_key,
    save (record r {
      orgs =
          insert org_id
            (record {
              org_id = org_id;
              name = name;
              roles = roles;
              public_key = C.public_hex private_key;
              metadata = metadata;
            })
            r.orgs;
    }),
  )
]

unfoldable pub get : String → Registry → Result Organization
get org_id r =
    or_raise (lookup org_id r.orgs) (permission_error "unknown organization: {}" (org_id ∷ []))

-- `[Role(r) for r in d["roles"]]`
pub parse_roles : List String → Result (List Role)
unfolding role_of_value
parse_roles =
    map_result (λ r. or_raise (role_of_value r) (value_error "{} is not a valid Role" (r ∷ [])))

pub load_org : String → SavedOrg → Result Organization
unfolding parse_roles
load_org oid d = do
  roles ← parse_roles d.roles
  ok (record {
    org_id = oid;
    name = d.name;
    roles = roles;
    public_key = d.public_key;
    metadata = d.metadata;
  })

load_entries : Dict Organization → Dict SavedOrg → Result (Dict Organization)
unfolding load_org
load_entries orgs [] = ok orgs
load_entries orgs ((oid, d) ∷ ds) = do o ← load_org oid d; load_entries (insert oid o orgs) ds

pub load : Option String → Dict SavedOrg → Result Registry
unfolding load_entries
load path file = do
  orgs ← load_entries [] file
  ok (record { path = path; orgs = orgs; file = file })

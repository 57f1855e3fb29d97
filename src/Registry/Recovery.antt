-- ===== src/Registry/Recovery.antt =====
-- A restart of the registry: `_load` of what `_save` has written.
use mathlib.Core.Path.{subst}
use olivechain.Base.{
  String, true, ◌≡◌, refl, sym, ◌∙◌, ap, none, List, [], ◌∷◌, ◌++◌, Dict, lookup, insert, arith,
  map, inl, inr, Option-cases,
}
use olivechain.Base.Filter.{append_nil, append_cons}
use olivechain.Base.Texts.{truthy_text}
use olivechain.Crypto.{Crypto}
use olivechain.Json.{Value}
use olivechain.Models.{Role, role_value}
use olivechain.Models.Names.{role_of_value-role_value}
use olivechain.Result.{ok}
use olivechain.Registry.{
  Organization, Registry, saved, saved_entries, save, register, parse_roles, load_org, load_entries,
  load,
}

-- Each organization stands under its own id, and no id stands twice.
abbrev pub Apart : Dict Organization → Dict Organization → Type 0
Apart before [] = Unit
Apart before ((id, o) ∷ os) =
    (lookup id before ≡ none) × (id ≡ o.org_id) × Apart (before ++ (id, o) ∷ []) os

-- The file holds the registry.
pub record IsSaved (r : Registry) : Type 0 where
  pub apart : Apart [] r.orgs
  pub file : r.file ≡ saved_entries r.orgs

insert-fresh :
    {V : Type 0} (k : String) (v : V) (d : Dict V)
    → lookup k d ≡ none
    → insert k v d ≡ d ++ (k, v) ∷ []
unfolding lookup insert
insert-fresh k v [] h = refl
insert-fresh k v ((j, w) ∷ d) h = ground (arith, insert-fresh k v d)

parse_roles-saved : (roles : List Role) → parse_roles (map role_value roles) ≡ ok roles
unfolding parse_roles
parse_roles-saved [] = refl
parse_roles-saved (r ∷ rs) = rw (role_of_value-role_value r, parse_roles-saved rs) refl

load_org-saved : (o : Organization) → load_org o.org_id (saved o) ≡ ok o
unfolding load_org saved
load_org-saved o = rw (parse_roles-saved o.roles) refl

load_entries-saved :
    (before os : Dict Organization)
    → Apart before os
    → load_entries before (saved_entries os) ≡ ok (before ++ os)
unfolding load_entries saved_entries
load_entries-saved before [] a = ap ok (sym (append_nil before))
load_entries-saved before ((id, o) ∷ os) (fresh, own, a) =
    let read : load_org id (saved o) ≡ ok o =
      ap (λ i. load_org i (saved o)) own ∙ load_org-saved o in
    rw (read, insert-fresh id o before fresh)
      (load_entries-saved (before ++ (id, o) ∷ []) os a ∙ ap ok (append_cons before (id, o) os))

-- What is saved is what a restart loads.
load-IsSaved : (r : Registry) → IsSaved r → load r.path r.file ≡ ok r
unfolding load
load-IsSaved r s = rw (s.file, load_entries-saved [] r.orgs s.apart) refl

Apart-added :
    (id : String) (o : Organization) (before os : Dict Organization)
    → Apart before os
    → id ≡ o.org_id
    → lookup id (before ++ os) ≡ none
    → Apart before (os ++ (id, o) ∷ [])
Apart-added id o before [] a own fresh =
    (subst (λ d. lookup id d ≡ none) (append_nil before) fresh, own, tt)
Apart-added id o before (x ∷ os) (f, w, a) own fresh = (
  f,
  w,
  Apart-added id o (before ++ x ∷ []) os a own (ap (lookup id) (append_cons before x os) ∙ fresh),
)

abbrev added : String → Organization → Registry → Registry
added id o r = record r {
  orgs = r.orgs ++ (id, o) ∷ [];
  file = saved_entries (r.orgs ++ (id, o) ∷ []);
}

added-IsSaved :
    (o : Organization) (r : Registry)
    → lookup o.org_id r.orgs ≡ none
    → IsSaved r
    → IsSaved (added o.org_id o r)
added-IsSaved o r absent s = record {
  apart = Apart-added o.org_id o [] r.orgs s.apart refl absent;
  file = refl;
}

register-IsSaved :
    (C : Crypto) (key id name : String) (roles : List Role) (metadata : Dict Value) (r : Registry)
    → truthy_text r.path ≡ true
    → IsSaved r
    → IsSaved (register C key id name roles metadata r).1
unfolding register save
register-IsSaved C key id name roles metadata r p s = elim (Option-cases (lookup id r.orgs)) [
  | inr (o, taken) ↦
      let same : (register C key id name roles metadata r).1 ≡ r = ground arith in
      subst IsSaved (sym same) s
  | inl absent ↦
      let o : Organization = record {
        org_id = id;
        name = name;
        roles = roles;
        public_key = C.public_hex key;
        metadata = metadata;
      } in
      let same : (register C key id name roles metadata r).1 ≡ added id o r =
        ground (arith, insert-fresh id o r.orgs) in
      subst IsSaved (sym same) (added-IsSaved o r absent s)
]

-- A registry with a path that is not empty, whose file holds it, is held by the file after a call
-- of `register` too, whether the call succeeds or raises, and a restart from that file gives back
-- the registry.
pub register-restart :
    (C : Crypto) (key id name : String) (roles : List Role) (metadata : Dict Value) (r : Registry)
    → truthy_text r.path ≡ true
    → IsSaved r
    → (let r' = (register C key id name roles metadata r).1 in
        IsSaved r' × (load r'.path r'.file ≡ ok r'))
register-restart C key id name roles metadata r p s =
    let kept = register-IsSaved C key id name roles metadata r p s in
    (kept, load-IsSaved (register C key id name roles metadata r).1 kept)

-- ===== src/Portal/Rows/Accounts.antt =====
-- The rows that the portal makes: each is of the name that it stands under, in a role that its
-- organization has.
use olivechain.Base.{
  String, true, false, none, some, Option-cases, [], ◌∷◌, Dict, lookup, insert, update, erase,
  lookup-insert, lookup-erase, ◌==◌, eq_iff, ◌≡◌, refl, sym, ◌∙◌, ap, inl, inr, if◌then◌else◌,
  arith,
}
use mathlib.Core.Path.{subst}
use olivechain.Base.Filter.{if-cases}
use olivechain.Json.{Value, str, obj, dict_value, of_fields}
use olivechain.Json.Sorted.{
  sorted, sorted_dict, sorted-dict_value, of_fields-to_fields, lookup-sorted_dict, map_option,
}
use olivechain.Result.{ok}
use olivechain.Portal.Identity.{PortalIdentity, is_username, validate_identity}
use olivechain.Portal.Rows.{set_row, not_null, find_row}
use olivechain.Portal.Rows.Stored.{set_row-ok}

pub record IsAccount (name : String) (d : Dict Value) : Type 0 where
  pub formed : is_username name ≡ true
  pub named : lookup "username" d ≡ some (str name)
  pub org_id : String
  pub role : String
  pub spec : PortalIdentity
  pub belongs : lookup "org_id" d ≡ some (str org_id)
  pub acts : lookup "role" d ≡ some (str role)
  pub valid : validate_identity org_id role ≡ ok spec

-- Every row is a dict with the columns of an account.
abbrev pub AreAccounts : Dict Value → Type 0
AreAccounts rows =
    (name : String) (row : Value)
    → lookup name rows ≡ some row
    → (d : Dict Value) × (row ≡ dict_value d) × IsAccount name d

sorted-IsAccount :
    (name : String) (d : Dict Value) → IsAccount name d → IsAccount name (sorted_dict d)
unfolding sorted
sorted-IsAccount name d a = record {
  formed = a.formed;
  named = lookup-sorted_dict "username" d ∙ ap map_option a.named;
  org_id = a.org_id;
  role = a.role;
  spec = a.spec;
  belongs = lookup-sorted_dict "org_id" d ∙ ap map_option a.belongs;
  acts = lookup-sorted_dict "role" d ∙ ap map_option a.acts;
  valid = a.valid;
}

some-injective : {A : Type 0} {a b : A} → some a ≡ some b → a ≡ b
some-injective {a = a} h = ap (λ o. elim o [ some x ↦ x | none ↦ a ]) h

fields_of : Value → Dict Value
fields_of (obj fs) = of_fields fs
fields_of v = []

pub dict_value-injective : (d e : Dict Value) → dict_value d ≡ dict_value e → d ≡ e
unfolding fields_of
dict_value-injective d e h = sym (of_fields-to_fields d) ∙ ap fields_of h ∙ of_fields-to_fields e

lookup-update :
    (key : String) (d changes : Dict Value)
    → lookup key changes ≡ none
    → lookup key (update d changes) ≡ lookup key d
unfolding lookup update
lookup-update key d [] h = refl
lookup-update key d ((k, v) ∷ changes) h =
    let other : (k == key) ≡ false = ground arith in
    lookup-update key (insert k v d) changes (ground arith)
    ∙ lookup-insert k key v d
    ∙ ap (λ b. if b then some v else lookup key d) other

-- Assignments to other columns leave an account one.
pub set_row-IsAccount :
    (name : String) (d changes : Dict Value) (row : Value)
    → lookup "username" changes ≡ none
    → lookup "org_id" changes ≡ none
    → lookup "role" changes ≡ none
    → IsAccount name d
    → set_row changes (dict_value d) ≡ ok row
    → (e : Dict Value) × (row ≡ dict_value e) × IsAccount name e
set_row-IsAccount name d changes row h₁ h₂ h₃ a h =
    let (d', same, made) = set_row-ok changes (dict_value d) row h in
    let like : d' ≡ d = dict_value-injective d' d (sym same) in
    (
      update d changes,
      made ∙ ap (λ e. dict_value (update e changes)) like,
      record {
        formed = a.formed;
        named = lookup-update "username" d changes h₁ ∙ a.named;
        org_id = a.org_id;
        role = a.role;
        spec = a.spec;
        belongs = lookup-update "org_id" d changes h₂ ∙ a.belongs;
        acts = lookup-update "role" d changes h₃ ∙ a.acts;
        valid = a.valid;
      },
    )

pub sorted_dict-AreAccounts :
    (rows : Dict Value) → AreAccounts rows → AreAccounts (sorted_dict rows)
sorted_dict-AreAccounts rows a name row h = elim (Option-cases (lookup name rows)) [
  | inl missing ↦ absurd (cc (lookup-sorted_dict name rows, ap map_option missing))
  | inr (v, found) ↦
      let (d, is, account) = a name v found in
      (
        sorted_dict d,
        some-injective (sym h ∙ lookup-sorted_dict name rows ∙ ap map_option found)
            ∙ ap sorted is
            ∙ sorted-dict_value d,
        sorted-IsAccount name d account,
      )
]

pub insert-AreAccounts :
    (name : String) (d rows : Dict Value)
    → IsAccount name d
    → AreAccounts rows
    → AreAccounts (insert name (dict_value d) rows)
insert-AreAccounts name d rows new a j row h =
    elim (if-cases (name == j) _ _ _ (sym (lookup-insert name j (dict_value d) rows) ∙ h)) [
      | inl (same, is) ↦
          (d, sym (some-injective is), subst (λ n. IsAccount n d) ((eq_iff name j).0 same) new)
      | inr (other, found) ↦ a j row found
    ]

pub erase-AreAccounts :
    (name : String) (rows : Dict Value) → AreAccounts rows → AreAccounts (erase name rows)
erase-AreAccounts name rows a j row h =
    elim (if-cases (name == j) _ _ _ (sym (lookup-erase name j rows) ∙ h)) [
      | inl (same, gone) ↦ cc
      | inr (other, found) ↦ a j row found
    ]

pub find_row-IsAccount :
    (name : String) (row : Value) (rows : Dict Value)
    → AreAccounts rows
    → find_row name rows ≡ some row
    → (d : Dict Value) × (row ≡ dict_value d) × IsAccount name d
unfolding find_row
find_row-IsAccount name row rows a h = elim (Option-cases (lookup name rows)) [
  | inl missing ↦ absurd (cc (sym h ∙ ap not_null missing))
  | inr (v, found) ↦
      let (d, is, account) = a name v found in
      (d, some-injective (sym h ∙ ap not_null (found ∙ ap some is)) ∙ refl, account)
]

-- ===== src/Portal/Rows/Stored.antt =====
-- How a row reads after it has been written and loaded.
use olivechain.Base.{
  String, Bool, true, false, not, ◌&&◌, if◌then◌else◌, none, some, [], ◌∷◌, Dict, lookup, update,
  ◌≡◌, refl, sym, ◌∙◌, ap,
}
use olivechain.Json.{
  Value, Floats, null, boolean, int, float, str, arr, obj, dict_value, to_fields, of_fields,
}
use olivechain.Json.Access.{item, get_or, value_item, truthy}
use olivechain.Json.Sorted.{
  sorted, sorted_dict, of_fields-to_fields, to_fields-of_fields, sorted-dict_value,
  lookup-sorted_dict, map_option,
}
use olivechain.Result.{ok, err, ok-injective, key_error, or_raise, raise_if, ◌>>=◌, ◌>>◌}
use olivechain.Portal.Identity.{fail}
use olivechain.Portal.Rows.{row_get, copy_row, set_row, not_null, find_row, pick_user}

abbrev pub stored : Dict Value → Value
stored d = sorted (dict_value d)

on_stored :
    {A : Type 0} (f : Value → A) (d : Dict Value) → f (stored d) ≡ f (dict_value (sorted_dict d))
on_stored f d = ap f (sorted-dict_value d)

pub value_item-stored :
    (key : String) (d : Dict Value) (v : Value)
    → lookup key d ≡ some v
    → value_item key (stored d) ≡ ok (sorted v)
value_item-stored key d v h =
    on_stored (value_item key) d
    ∙ ap (item key) (of_fields-to_fields (sorted_dict d))
    ∙ ap (λ o. or_raise o (key_error "{}" (key ∷ []))) (lookup-sorted_dict key d ∙ ap map_option h)

pub row_get-stored :
    (default : Value) (key : String) (d : Dict Value)
    → row_get default key (stored d) ≡ ok (get_or default key (sorted_dict d))
unfolding row_get
row_get-stored default key d =
    on_stored (row_get default key) d
    ∙ ap (λ e. ok (get_or default key e)) (of_fields-to_fields (sorted_dict d))

pub get_or-stored :
    (default : Value) (key : String) (d : Dict Value) (v : Value)
    → lookup key d ≡ some v
    → get_or default key (sorted_dict d) ≡ sorted v
get_or-stored default key d v h =
    ap (λ o. elim o as (λ o. Value) [ none ↦ default | some v ↦ v ])
      (lookup-sorted_dict key d ∙ ap map_option h)

pub copy_row-stored : (d : Dict Value) → copy_row (stored d) ≡ ok (sorted_dict d)
unfolding copy_row
copy_row-stored d = on_stored copy_row d ∙ ap ok (of_fields-to_fields (sorted_dict d))

truthy-dict :
    (F : Floats) (key : String) (d : Dict Value) (v : Value)
    → lookup key d ≡ some v
    → truthy F (dict_value d) ≡ true
unfolding truthy lookup to_fields
truthy-dict F key [] v h = cc
truthy-dict F key ((k, w) ∷ d) v h = refl

pub truthy-stored :
    (F : Floats) (key : String) (d : Dict Value) (v : Value)
    → lookup key d ≡ some v
    → truthy F (stored d) ≡ true
truthy-stored F key d v h =
    on_stored (truthy F) d
    ∙ truthy-dict F key (sorted_dict d) (sorted v) (lookup-sorted_dict key d ∙ ap map_option h)

-- Only a dict can be assigned to.
pub set_row-ok :
    (changes : Dict Value) (v w : Value)
    → set_row changes v ≡ ok w
    → (d : Dict Value) × (v ≡ dict_value d) × (w ≡ dict_value (update d changes))
unfolding set_row
set_row-ok changes (obj fs) w h =
    (of_fields fs, ap obj (sym (to_fields-of_fields fs)), sym (ok-injective h))
set_row-ok changes null w h = cc
set_row-ok changes (boolean b) w h = cc
set_row-ok changes (int n) w h = cc
set_row-ok changes (float x) w h = cc
set_row-ok changes (str t) w h = cc
set_row-ok changes (arr vs) w h = cc

pub find_row-stored :
    (name : String) (d rows : Dict Value)
    → lookup name rows ≡ some (dict_value d)
    → find_row name (sorted_dict rows) ≡ some (stored d)
unfolding find_row sorted
find_row-stored name d rows h =
    ap not_null (lookup-sorted_dict name rows ∙ ap map_option h)
    ∙ ap not_null (ap some (sorted-dict_value d))
    ∙ ap some (sym (sorted-dict_value d))

gate :
    (disabled : Bool) (d : Dict Value)
    → (raise_if disabled (fail "user is disabled") >> ok d)
      ≡ (if disabled then err (fail "user is disabled") else ok d)
gate true d = refl
gate false d = refl

active_gate :
    (required : Bool) (active : Value) (F : Floats) (d : Dict Value)
    → ((if required then ok active else ok (boolean true)) >>= λ active.
        raise_if (required && not (truthy F active)) (fail "user is disabled") >> ok d)
      ≡ (if required && not (truthy F active) then err (fail "user is disabled") else ok d)
active_gate true active F d = gate (not (truthy F active)) d
active_gate false active F d = refl

-- What `get_user` finds, with and without the test that the user is active.
pub pick_user-stored :
    (F : Floats) (name : String) (required : Bool) (d rows : Dict Value)
    → lookup name rows ≡ some (dict_value d)
    → pick_user F name required (sorted_dict rows) ≡ (
        if required && not (truthy F (get_or (boolean true) "active" (sorted_dict d)))
        then err (fail "user is disabled")
        else ok (sorted_dict d))
unfolding pick_user
pick_user-stored F name required d rows h =
    rw (find_row-stored name d rows h, row_get-stored (boolean true) "active" d, copy_row-stored d)
      (active_gate required (get_or (boolean true) "active" (sorted_dict d)) F (sorted_dict d))

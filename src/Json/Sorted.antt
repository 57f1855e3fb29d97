-- ===== src/Json/Sorted.antt =====
-- What `json.loads` reads of a text that `json.dumps(value, sort_keys=True)` wrote: the value, with
-- the keys of every dict of it in order.
use olivechain.Base.{
  String, Option, none, some, [], ◌∷◌, Dict, ◌==◌, eq_iff, ◌≡◌, refl, ap, ◌∙◌, arith, if◌then◌else◌,
  lookup,
}
use olivechain.Base.Filter.{if-elim}
use olivechain.Base.Sort.{text_leb, insert_sorted, sort_by}
use olivechain.Json.{
  Value, Items, Fields, null, boolean, int, float, str, arr, obj, nil, cons, end, field, to_fields,
  of_fields,
}

abbrev entry_key : String × Value → String
entry_key e = e.0

mutual
  unfolding sort_by to_fields

  sort_value : Value → Value
  sort_value null = null
  sort_value (boolean b) = boolean b
  sort_value (int n) = int n
  sort_value (float x) = float x
  sort_value (str s) = str s
  sort_value (arr vs) = arr (sort_items vs)
  sort_value (obj fs) = obj (to_fields (sort_by entry_key (sort_entries fs)))

  sort_items : Items → Items
  sort_items nil = nil
  sort_items (cons v vs) = cons (sort_value v) (sort_items vs)

  sort_entries : Fields → Dict Value
  sort_entries end = []
  sort_entries (field k v fs) = (k, sort_value v) ∷ sort_entries fs

unfoldable pub sorted : Value → Value
unfolding sort_value
sorted v = sort_value v

unfoldable pub sorted_dict : Dict Value → Dict Value
unfolding sort_entries sort_by to_fields
sorted_dict d = sort_by entry_key (sort_entries (to_fields d))

pub of_fields-to_fields : (d : Dict Value) → of_fields (to_fields d) ≡ d
unfolding of_fields to_fields
of_fields-to_fields [] = refl
of_fields-to_fields ((k, v) ∷ d) = ap (λ r. (k, v) ∷ r) (of_fields-to_fields d)

pub to_fields-of_fields : (fs : Fields) → to_fields (of_fields fs) ≡ fs
unfolding of_fields to_fields
to_fields-of_fields end = refl
to_fields-of_fields (field k v fs) = ap (field k v) (to_fields-of_fields fs)

pub sorted-dict_value :
    (d : Dict Value) → sorted (obj (to_fields d)) ≡ obj (to_fields (sorted_dict d))
unfolding sorted sorted_dict
sorted-dict_value d = refl

abbrev pub map_option : Option Value → Option Value
map_option none = none
map_option (some v) = some (sorted v)

lookup-insert_sorted :
    (k j : String) (v : Value) (d : Dict Value)
    → lookup k (insert_sorted entry_key (j, v) d) ≡ (if j == k then some v else lookup k d)
unfolding lookup insert_sorted
lookup-insert_sorted k j v [] = refl
lookup-insert_sorted k j v ((i, w) ∷ d) =
    if-elim (λ (r : Dict Value). lookup k r ≡ (if j == k then some v else lookup k ((i, w) ∷ d)))
      (text_leb j i) ((j, v) ∷ (i, w) ∷ d) ((i, w) ∷ insert_sorted entry_key (j, v) d) (λ h. refl)
      λ h. ground (arith, eq_iff i k, eq_iff j k, eq_iff j i, lookup-insert_sorted k j v d)

lookup-sort_entries :
    (k : String) (d : Dict Value)
    → lookup k (sort_by entry_key (sort_entries (to_fields d))) ≡ map_option (lookup k d)
unfolding lookup sort_by sort_entries to_fields sorted
lookup-sort_entries k [] = refl
lookup-sort_entries k ((j, v) ∷ d) =
    lookup-insert_sorted k j (sort_value v) (sort_by entry_key (sort_entries (to_fields d)))
    ∙ ground (arith, lookup-sort_entries k d)

-- Sorting changes no lookup but for the order inside of what is found.
pub lookup-sorted_dict :
    (k : String) (d : Dict Value) → lookup k (sorted_dict d) ≡ map_option (lookup k d)
unfolding sorted_dict
lookup-sorted_dict k d = lookup-sort_entries k d

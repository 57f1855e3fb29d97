-- ===== src/Json/Access.antt =====
-- How the program reads values: truth, float(), int() and str() of a JSON value.
use olivechain.Base.{
  String, Bool, true, false, not, Option, none, some, List, [], ◌∷◌, Dict, lookup, any, contains,
  map, if◌then◌else◌, ◌==◌, eqb,
}
use olivechain.Base.Int.{ℤ, pos, negsuc}
use olivechain.Json.{
  Value, of_items, of_fields, Floats, Float, null, boolean, int, float, str, arr, obj, nil, cons,
  end, field,
}
use olivechain.Result.{
  Result, ok, err, or_raise, key_error, type_error, value_error, map_result, ◌>>=◌,
}

-- `payload[key]`
abbrev pub item : String → Dict Value → Result Value
item key payload = or_raise (lookup key payload) (key_error "{}" (key ∷ []))

-- `payload.get(key, default)`
abbrev pub get_or : Value → String → Dict Value → Value
get_or default key payload = elim (lookup key payload) [ none ↦ default | some v ↦ v ]

-- What can be a key of a dict or a member of a set.
abbrev pub hashable : Value → Result Value
hashable (arr vs) = err (type_error "unhashable type: 'list'" [])
hashable (obj fs) = err (type_error "unhashable type: 'dict'" [])
hashable v = ok v

-- `value == text`
abbrev pub is_text : String → Value → Bool
is_text s (str t) = t == s
is_text s _ = false

-- What a `for` loop over a value runs through. The characters of a text and the keys of a dict are
-- texts, and each of the loops modelled here looks a key up in its first element, which raises on a
-- text: so it raises here.
abbrev pub elements : Value → Result (List Value)
elements (arr vs) = ok (of_items vs)
elements (obj end) = ok []
elements (obj (field k v fs)) = err (type_error "string indices must be integers" [])
elements (str s) = if s == "" then ok [] else err (type_error "string indices must be integers" [])
elements _ = err (type_error "object is not iterable" [])

chars : String → List Value
chars String.[] = []
chars (String.◌∷◌ c s) = str (String.◌∷◌ c "") ∷ chars s

-- What a loop over a value runs through.
unfoldable pub iterated : Value → Result (List Value)
unfolding chars
iterated (arr vs) = ok (of_items vs)
iterated (obj fs) = ok (map (λ e. str e.0) (of_fields fs))
iterated (str s) = ok (chars s)
iterated _ = err (type_error "object is not iterable" [])

-- The two elements of a pair that a dict is made of, the first of which is a key.
the_pair : List Value → Result (Value × Value)
the_pair (k ∷ v ∷ []) = hashable k >>= λ key. ok (key, v)
the_pair vs = err (value_error "dictionary update sequence element is of another length than 2" [])

-- What `dict(value)` and `d.update(value)` take of a value that is no dict: pairs.
unfoldable pub read_pairs : Value → Result (List (Value × Value))
unfolding iterated the_pair
read_pairs value = iterated value >>= map_result (λ pair. iterated pair >>= the_pair)

-- `value[key]`
abbrev pub value_item : String → Value → Result Value
value_item key (obj fs) = item key (of_fields fs)
value_item key _ = err (type_error "object is not subscriptable by a text" [])

module _ (F : Floats) where
  -- `bool(value)`
  unfoldable pub truthy : Value → Bool
  truthy null = false
  truthy (boolean b) = b
  truthy (int (pos n)) = not (eqb n 0)
  truthy (int (negsuc n)) = true
  truthy (float x) = not (F.eq x F.zero)
  truthy (str s) = not (s == "")
  truthy (arr nil) = false
  truthy (arr (cons v vs)) = true
  truthy (obj end) = false
  truthy (obj (field k v fs)) = true

  -- `float(value)`
  unfoldable pub to_float : Value → Result Float
  to_float (boolean true) = ok (F.of_int (pos 1))
  to_float (boolean false) = ok (F.of_int (pos 0))
  to_float (int n) = ok (F.of_int n)
  to_float (float x) = ok x
  to_float (str s) =
      or_raise (F.parse s) (value_error "could not convert string to float: {}" (s ∷ []))
  to_float _ = err (type_error "float() argument must be a string or a real number" [])

  -- `int(value)`
  unfoldable pub to_int : Value → Result ℤ
  to_int (boolean true) = ok (pos 1)
  to_int (boolean false) = ok (pos 0)
  to_int (int n) = ok n
  to_int (float x) = or_raise (F.trunc x) (value_error "cannot convert float to integer" [])
  to_int (str s) = or_raise (F.parse_int s) (value_error "invalid literal for int(): {}" (s ∷ []))
  to_int _ = err (type_error "int() argument must be a string or a real number" [])

  -- A number as a float, where a value is one: `True`, `1` and `1.0` are the same key.
  unfoldable pub number : Value → Option Float
  number (boolean b) = some (if b then F.of_int (pos 1) else F.of_int (pos 0))
  number (int n) = some (F.of_int n)
  number (float x) = some x
  number _ = none

  -- Equality of hashable values; an integer is compared as the float next to it.
  unfoldable pub same_key : Value → Value → Bool
  unfolding number
  same_key null null = true
  same_key (str s) (str t) = s == t
  same_key v w = elim (number v) [
    | none ↦ false
    | some x ↦ elim (number w) [ none ↦ false | some y ↦ F.eq x y ]
  ]

  -- `d.get(key, default)` and `d[key] = value` where keys are such values.
  unfoldable pub find_key {ℓ} : {V : Type ℓ} → Value → V → List (Value × V) → V
  find_key k v [] = v
  find_key k v ((j, w) ∷ d) = if same_key j k then w else find_key k v d

  unfoldable pub put_key {ℓ} : {V : Type ℓ} → Value → V → List (Value × V) → List (Value × V)
  put_key k v [] = (k, v) ∷ []
  put_key k v ((j, w) ∷ d) = if same_key j k then (j, v) ∷ d else (j, w) ∷ put_key k v d

  -- `text in value`
  unfoldable pub text_in_value : String → Value → Result Bool
  text_in_value s (arr vs) = ok (any (is_text s) (of_items vs))
  text_in_value s (obj fs) = ok (contains s (of_fields fs))
  text_in_value s (str t) = ok (F.in_text s t)
  text_in_value s _ = err (type_error "argument is not iterable" [])

-- ===== src/Json.antt =====
-- The values of the standard `json` module as Python holds them: payloads, evidence references and
-- the bodies that are signed. A float is opaque; its operations are those of the record `Floats`.
pub mod Dump
pub mod Access
pub mod Sorted
use olivechain.Base.{ℕ, String, Bool, Option, Dict, List, [], ◌∷◌}
use olivechain.Base.Int.{ℤ}

-- A binary64 number, as its bit pattern.
pub record Float : Type 0 where
  pub bits : ℕ

mutual
  pub data Value : Type 0 where
    null : Value
    boolean : Bool → Value
    int : ℤ → Value
    float : Float → Value
    str : String → Value
    obj : Fields → Value
    arr : Items → Value

  pub data Fields : Type 0 where
    end : Fields
    field : String → Value → Fields → Fields

  pub data Items : Type 0 where
    nil : Items
    cons : Value → Items → Items

-- A dict at the top of a payload is a `Dict Value`; these go between it and a nested dict.
unfoldable pub to_fields : Dict Value → Fields
to_fields [] = end
to_fields ((k, v) ∷ d) = field k v (to_fields d)

unfoldable pub of_fields : Fields → Dict Value
of_fields end = []
of_fields (field k v fs) = (k, v) ∷ of_fields fs

unfoldable pub to_items : List Value → Items
to_items [] = nil
to_items (v ∷ vs) = cons v (to_items vs)

unfoldable pub of_items : Items → List Value
of_items nil = []
of_items (cons v vs) = v ∷ of_items vs

abbrev pub dict_value : Dict Value → Value
dict_value d = obj (to_fields d)

-- What the interpreter supplies: IEEE 754 arithmetic, and numbers and values as texts.
pub record Floats : Type 0 where
  pub zero : Float
  pub of_int : ℤ → Float
  pub add : Float → Float → Float
  pub sub : Float → Float → Float
  pub mul : Float → Float → Float
  pub div : Float → Float → Float
  pub abs : Float → Float
  -- `round(x, 2)`
  pub round2 : Float → Float
  pub lt : Float → Float → Bool
  pub le : Float → Float → Bool
  pub eq : Float → Float → Bool
  -- `repr(x)`, in bytes
  pub repr : Float → List ℕ
  -- the number that a literal of the program stands for, in units of 10^-3
  pub of_milli : ℕ → Float
  -- `float(text)` and `int(text)`, where the text is a number
  pub parse : String → Option Float
  pub parse_int : String → Option ℤ
  -- `int(x)`, where `x` is finite
  pub trunc : Float → Option ℤ
  -- `part in text`
  pub in_text : String → String → Bool
  -- `str(value)`
  pub to_text : Value → String

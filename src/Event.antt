-- ===== src/Event.antt =====
-- The dataclass `Event` of ledger.py, its signing body and the hash that chains it.
use olivechain.Base.{ℕ, String, Option, List, [], ◌∷◌, ◌++◌, map, Dict}
use olivechain.Crypto.{Crypto}
use olivechain.Json.{Value, Floats, str, arr, dict_value, to_items}
use olivechain.Json.Dump.{canonical_json, encode}

pub record Event : Type 0 where
  pub event_id : String
  pub event_type : String
  pub subject_id : String
  pub actor_org : String
  pub timestamp : Value
  pub payload : Dict Value
  pub actor_user : String
  pub actor_wallet : String
  pub evidence : List (Dict Value)
  pub prev_hash : String
  pub signature : String
  pub event_hash : String
  -- set in memory when a correction lands
  pub superseded_by : Option String

abbrev pub genesis_hash : String
genesis_hash = "0000000000000000000000000000000000000000000000000000000000000000"

abbrev dict_values : List (Dict Value) → List Value
dict_values = map (λ d. dict_value d)

module _ (F : Floats) where
  unfoldable pub signing_body : Event → List ℕ
  signing_body e = canonical_json F (
      dict_value (
        ("event_id", str e.event_id)
        ∷ ("event_type", str e.event_type)
        ∷ ("subject_id", str e.subject_id)
        ∷ ("actor_org", str e.actor_org)
        ∷ ("timestamp", e.timestamp)
        ∷ ("payload", dict_value e.payload)
        ∷ ("evidence", arr (to_items (dict_values e.evidence)))
        ∷ ("prev_hash", str e.prev_hash)
        ∷ []))

module _ (F : Floats) (C : Crypto) where
  -- `sha256_hex(body + signature.encode())`
  unfoldable pub chained_hash : Event → String
  chained_hash e = C.sha256_hex (signing_body F e ++ encode e.signature)

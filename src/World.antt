-- ===== src/World.antt =====
-- Concrete parameters: an arithmetic and a signature scheme in which every function computes, and a
-- cooperative of a farm, a mill, a processor and an authority.
use olivechain.Base.{
  ℕ, ◌+◌, ◌-◌, ◌*◌, ◌/◌, ◌%◌, String, ◌<>◌, Option, none, some, [], ◌∷◌, Dict, ltb, leb, eqb,
  if◌then◌else◌, ◌==◌, eq_refl, length,
}
use olivechain.Base.Int.{pos, pos_part}
use olivechain.Crypto.{Crypto, IsSound}
use olivechain.Json.{Value, Float, Floats, dict_value, str, int, arr, nil}
use olivechain.Models.{EventType, Role}
use olivechain.Registry.{Registry, Organization}
use olivechain.Ledger.{Ledger, Submission, Body, empty}

abbrev number : ℕ → Float
number n = record { bits = n }

-- Numbers at or above zero, in thousandths.
abbrev pub floats : Floats
floats = record {
  zero = number 0;
  of_int = λ n. number (pos_part n * 1000);
  add = λ x y. number (x.bits + y.bits);
  sub = λ x y. number (x.bits - y.bits);
  mul = λ x y. number (x.bits * y.bits / 1000);
  div = λ x y. number (if eqb y.bits 0 then 0 else x.bits * 1000 / y.bits);
  abs = λ x. x;
  round2 = λ x. x;
  lt = λ x y. ltb x.bits y.bits;
  le = λ x y. leb x.bits y.bits;
  eq = λ x y. eqb x.bits y.bits;
  repr = λ x. x.bits ∷ [];
  of_milli = number;
  parse = λ s. none;
  parse_int = λ s. none;
  trunc = λ x. some (pos (x.bits / 1000));
  in_text = λ s t. s == t;
  to_text = λ v. elim v [ str s ↦ s | _ ↦ "" ];
}

-- A key is its own public key, and a signature names the key.
abbrev pub crypto : Crypto
crypto = record {
  sha256_hex = λ bytes. if eqb (length bytes % 2) 0 then "even" else "odd";
  public_hex = λ key. key;
  sign = λ key message. key <> "-signature";
  verify_signature = λ public_key message signature. signature == (public_key <> "-signature");
}

pub crypto-IsSound : IsSound crypto
crypto-IsSound = record { verify-sign = λ key message. eq_refl (key <> "-signature") }

abbrev organization : String → Role → Organization
organization id role = record {
  org_id = id;
  name = id;
  roles = role ∷ [];
  public_key = id <> "-key";
  metadata = [];
}

abbrev pub farm : Organization
farm = organization "farm" Role.farmer

abbrev pub registry : Registry
registry = record {
  orgs =
      ("farm", farm)
      ∷ ("mill", organization "mill" Role.mill)
      ∷ ("lab", organization "lab" Role.laboratory)
      ∷ [];
  path = none;
  file = [];
}

abbrev pub path : Option String
path = some "ledger.jsonl"

abbrev pub start : Ledger
start = empty registry path

abbrev submission : String → EventType → String → Dict Value → Submission
submission id t org payload = record {
  event_type = t;
  subject_id = "BATCH-1";
  actor_org = org;
  payload = payload;
  keypair = org <> "-key";
  evidence = [];
  timestamp = none;
  now = number 1000;
  fresh_id = id;
}

abbrev pub cultivation : Submission
cultivation = submission "e1" EventType.cultivation "farm" (
    ("farm_id", str "F")
    ∷ ("plot_id", str "P")
    ∷ ("cultivar", str "picual")
    ∷ ("practices", str "organic")
    ∷ [])

abbrev pub harvest_payload : Dict Value
harvest_payload =
    ("date", str "2024-11-02")
    ∷ ("quantity_kg", int (pos 800))
    ∷ ("method", str "hand")
    ∷ ("location", str "P")
    ∷ []

-- A correction of the first event, by the farm that recorded it.
abbrev pub correction : Submission
correction = submission "e3" EventType.correction "farm" (
    ("supersedes_event", str "e1")
    ∷ ("reason", str "typo")
    ∷ ("corrected_payload", dict_value (("cultivar", str "arbequina") ∷ []))
    ∷ [])

abbrev pub analysis : Submission
analysis =
    submission "e4" EventType.lab_verification "lab"
      (("quality_class", str "extra_virgin") ∷ ("results", arr nil) ∷ [])

-- The body of a harvest that is prepared on a ledger whose head has this hash.
abbrev pub harvest_body : String → Body
harvest_body head = record {
  event_id = "e2";
  event_type = "harvest";
  subject_id = "BATCH-1";
  actor_org = "farm";
  timestamp = int (pos 1000);
  payload = harvest_payload;
  evidence = [];
  prev_hash = head;
}

abbrev pub farm_signature : String
farm_signature = "farm-key-signature"

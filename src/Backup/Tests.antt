-- ===== src/Backup/Tests.antt =====
-- A backup of a ledger, and archives that would write elsewhere.
use olivechain.Base.{
  ℕ, String, ◌<>◌, true, some, none, List, [], ◌∷◌, lookup, insert, ◌≡◌, refl, ◌⊎◌,
}
use olivechain.Json.{Value, str, dict_value, to_fields, of_fields}
use olivechain.Json.Access.{truthy}
use olivechain.Result.{ok, err, value_error}
use olivechain.World.{floats}
use olivechain.Backup.{ArchiveLibrary, Member, make_backup, restore_backup}
use olivechain.Backup.Contained.{IsInside, restore_backup-Contained}

abbrev entry : String → List ℕ → Member
entry name bytes = record { name = name; is_file = true; content = bytes; opened = ok (some bytes) }

abbrev manifest : Value
manifest = dict_value (("files", dict_value (("data/ledger.jsonl", str "hash") ∷ [])) ∷ [])

-- The first byte of an archive says which it is: a backup, or one with a path that goes up.
abbrev library : ArchiveLibrary
library = record {
  to_members = λ bytes. elim bytes [
    | [] ↦ some (entry "manifest.json" [] ∷ entry "data/ledger.jsonl" (7 ∷ []) ∷ [])
    | b ∷ bs ↦ some (entry "manifest.json" [] ∷ entry "data/../serve.py" (7 ∷ []) ∷ [])
  ];
  of_members = λ ms. [];
  load_json = λ bytes. some manifest;
  dump_json = λ v. [];
  sha256_hex = λ bytes. "hash";
  abspath = λ path. path;
  join = λ dir name. dir <> "/" <> name;
}

restores :
    restore_backup library floats (make_backup library floats none none [] [] 5 []) "srv" []
    ≡ (ok manifest, ("srv/data/ledger.jsonl", 7 ∷ []) ∷ [])
unfolding make_backup restore_backup insert lookup truthy to_fields of_fields
restores = refl

refuses_to_climb :
    restore_backup library floats (1 ∷ []) "srv" []
    ≡ (err (value_error "unsafe path in archive: {}" ("data/../serve.py" ∷ [])), [])
unfolding restore_backup lookup of_fields to_fields
refuses_to_climb = refl

restore_backup-Contained_example :
    (lookup "srv/data/ledger.jsonl" (restore_backup library floats [] "srv" []).1
      ≡ lookup "srv/data/ledger.jsonl" [])
    ⊎ IsInside library floats "srv" "srv/data/ledger.jsonl"
restore_backup-Contained_example =
    restore_backup-Contained library floats [] "srv" "srv/data/ledger.jsonl" []

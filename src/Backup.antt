-- ===== src/Backup.antt =====
-- backup.py: the archive of registry, ledger and evidence, and how it is restored. An archive is the
-- entries that the tarfile module finds in it, and a file holds bytes.
pub mod Contained
pub mod Tests
use Prim.Native.Char.{Char, code}
use olivechain.Base.{
  ℕ, suc, String, ◌<>◌, Bool, true, false, not, ◌&&◌, ◌||◌, Option, none, some, List, [], ◌∷◌, ◌++◌,
  Dict, lookup, insert, update, filter, length, map, is_some, any, ◌==◌, eqb, if◌then◌else◌,
}
use olivechain.Base.Int.{pos}
use olivechain.Base.Sort.{sort_by}
use olivechain.Base.Texts.{strip_prefix}
use olivechain.Effects.{Exec, pure, reads, or_raise, raise_if, modify, ◌>>=◌, ◌>>◌}
use olivechain.Json.{Value, Floats, null, int, str, dict_value, to_fields, obj, end}
use olivechain.Json.Access.{truthy, is_text}
use olivechain.Portal.Rows.{row_get}
use olivechain.Result.{Result, key_error, value_error}

pub record Member : Type 0 where
  pub name : String
  -- `member.isfile()`
  pub is_file : Bool
  pub content : List ℕ
  -- what `tar.extractfile(member)` opens: the content of a regular file or of the one that a link
  -- leads to, and no file else; an error where a link leads nowhere
  pub opened : Result (Option (List ℕ))

-- What is taken of tarfile, json, hashlib and os.path.
pub record ArchiveLibrary : Type 0 where
  pub to_members : List ℕ → Option (List Member)
  pub of_members : List Member → List ℕ
  pub load_json : List ℕ → Option Value
  pub dump_json : Value → List ℕ
  pub sha256_hex : List ℕ → String
  pub abspath : String → String
  pub join : String → String → String

abbrev pub Files : Type 0
Files = Dict (List ℕ)

abbrev pub starts_with : String → String → Bool
starts_with prefix s = is_some (strip_prefix prefix s)

with_char : Char → List String → List String
with_char c [] = String.◌∷◌ c "" ∷ []
with_char c (s ∷ rest) = String.◌∷◌ c s ∷ rest

-- `name.split("/")`
unfoldable pub split_path : String → List String
unfolding with_char
split_path String.[] = "" ∷ []
split_path (String.◌∷◌ c s) =
    let rest = split_path s in if eqb (code c) 47 then "" ∷ rest else with_char c rest

-- The name of an entry that may be written, under `_ALLOWED_TOP`.
unfoldable pub is_safe_name : String → Bool
unfolding split_path strip_prefix
is_safe_name name =
    not (starts_with "/" name)
    && not (any (λ part. part == "..") (split_path name))
    && (starts_with "data/" name || starts_with "evidence_store/" name)

-- The last entry of a name.
unfoldable pub entry : String → List Member → Option Member
entry name [] = none
entry name (m ∷ ms) = elim (entry name ms) [
  | some found ↦ some found
  | none ↦ if m.name == name then some m else none
]

module _ (L : ArchiveLibrary) (F : Floats) where
  -- The checksum of a file that has been written.
  unfoldable pub check_file : Value → Member → Exec Files (Unit {0})
  unfolding row_get
  check_file checksums m = do
    want ← reads (λ s. row_get null m.name checksums)
    raise_if (truthy F want && not (is_text (L.sha256_hex m.content) want))
        (value_error "checksum mismatch after restoring {}" (m.name ∷ []))

  -- One round of the loop of restore_backup.
  unfoldable pub restore_member : String → Value → Member → Exec Files (Unit {0})
  unfolding is_safe_name strip_prefix check_file
  restore_member dest checksums m = if m.name == "manifest.json" then pure tt else (do
    raise_if (not m.is_file) (value_error "unexpected non-file entry: {}" (m.name ∷ []))
    raise_if (not (is_safe_name m.name)) (value_error "unsafe path in archive: {}" (m.name ∷ []))
    let target = L.join dest m.name
    raise_if (not (starts_with (dest <> "/") (L.abspath target)))
        (value_error "path escapes destination: {}" (m.name ∷ []))
    modify (insert target m.content)
    check_file checksums m)

  unfoldable pub restore_members : String → Value → List Member → Exec Files (Unit {0})
  unfolding restore_member
  restore_members dest checksums [] = pure tt
  restore_members dest checksums (m ∷ ms) =
      restore_member dest checksums m >> restore_members dest checksums ms

  -- `json.loads` of what is opened
  unfoldable pub json_of : Result (Option (List ℕ)) → Result Value
  json_of (Result.err e) = Result.err e
  json_of (Result.ok none) = Result.err (value_error "archive has no manifest.json" [])
  json_of (Result.ok (some bytes)) = elim (L.load_json bytes) [
    | none ↦ Result.err (value_error "not JSON" [])
    | some v ↦ Result.ok v
  ]

  -- `json.loads` of the entry that holds the manifest
  unfoldable pub manifest_of : List Member → Result Value
  unfolding entry json_of
  manifest_of members = elim (entry "manifest.json" members) [
    | none ↦ Result.err (key_error "filename {} not found" ("manifest.json" ∷ []))
    | some m ↦ json_of m.opened
  ]

  unfoldable pub read_manifest : List ℕ → Result Value
  unfolding manifest_of
  read_manifest archive = elim (L.to_members archive) [
    | none ↦ Result.err (value_error "not a gzip file" [])
    | some members ↦ manifest_of members
  ]

  -- With the absolute path of the destination.
  unfoldable pub restore_backup : List ℕ → String → Exec Files Value
  unfolding manifest_of restore_members row_get
  restore_backup archive dest_dir = do
    members ← or_raise (L.to_members archive) (value_error "not a gzip file" [])
    manifest ← reads (λ s. manifest_of members)
    checksums ← reads (λ s. row_get (obj end) "files" manifest)
    restore_members (L.abspath dest_dir) checksums members
    pure manifest

  -- The files of a backup, with their names in the archive: a file of the ledger and of the registry
  -- that is named and there, and the entries of the directory of evidence.
  unfoldable pub named_file : Option String → String → Files → List (String × List ℕ)
  named_file none arc files = []
  named_file (some path) arc files = elim (lookup path files) [
    | none ↦ []
    | some bytes ↦ (arc, bytes) ∷ []
  ]

  unfoldable pub backup_files :
      Option String → Option String → Dict (List ℕ) → Files → List (String × List ℕ)
  unfolding named_file
  backup_files registry_path ledger_path evidence files =
      named_file registry_path "data/registry.json" files
      ++ named_file ledger_path "data/ledger.jsonl" files
      ++ map (λ e. ("evidence_store/" <> e.0, e.1)) (sort_by (λ e. e.0) evidence)

  -- The manifest, at the time, with what `extra` adds.
  unfoldable pub backup_manifest : List (String × List ℕ) → Dict Value → ℕ → Dict Value
  unfolding strip_prefix
  backup_manifest entries extra now =
      update
        (("format", str "olivechain-backup/1")
          ∷ ("exported_at", int (pos now))
          ∷ (
            "evidence_count",
            int (pos (length (filter (λ e. starts_with "evidence_store/" e.0) entries))),
          )
          ∷ (
            "files",
            obj (to_fields (update [] (map (λ e. (e.0, str (L.sha256_hex e.1))) entries))),
          )
          ∷ [])
        extra

  abbrev file_member : String × List ℕ → Member
  file_member (name, bytes) = record {
    name = name;
    is_file = true;
    content = bytes;
    opened = Result.ok (some bytes);
  }

  unfoldable pub make_backup :
      Option String → Option String → Dict (List ℕ) → Dict Value → ℕ → Files → List ℕ
  unfolding backup_files backup_manifest
  make_backup registry_path ledger_path evidence extra now files =
      let entries = backup_files registry_path ledger_path evidence files in
      let manifest = L.dump_json (dict_value (backup_manifest entries extra now)) in
      L.of_members (map file_member (("manifest.json", manifest) ∷ entries))

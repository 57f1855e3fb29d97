-- ===== src/Evidence.antt =====
-- evidence.py: artifacts that are stored under the hash of their content. A file holds bytes.
pub mod Anchored
pub mod Tests
use olivechain.Base.{
  ℕ, String, ◌<>◌, Bool, false, Option, none, some, List, [], ◌∷◌, Dict, lookup, insert, ◌==◌,
}
use olivechain.Crypto.{Crypto}
use olivechain.Json.{Value, null, boolean, int, float, str, arr, obj}
use olivechain.Json.Access.{item, is_text}
use olivechain.Result.{Result, ok, err, type_error, ◌>>=◌}

-- `os.path.basename` and `os.path.join`
pub record PathLibrary : Type 0 where
  pub basename : String → String
  pub join : String → String → String

abbrev pub Files : Type 0
Files = Dict (List ℕ)

module _ (O : PathLibrary) (C : Crypto) where
  unfoldable pub evidence_path : String → String → List ℕ → String
  evidence_path root name bytes = O.join root (C.sha256_hex bytes <> "_" <> O.basename name)

  -- The reference that is embedded in an event.
  unfoldable pub reference : String → String → List ℕ → Dict Value
  unfolding evidence_path
  reference root name bytes =
      ("name", str name)
      ∷ ("sha256", str (C.sha256_hex bytes))
      ∷ ("uri", str (evidence_path root name bytes))
      ∷ []

  unfoldable pub put : String → String → List ℕ → Files → Dict Value × Files
  put root name bytes files =
      (reference root name bytes, insert (evidence_path root name bytes) bytes files)

  -- A missing file is caught before the hash of the reference is looked up.
  unfoldable pub matches : Option (List ℕ) → Dict Value → Result Bool
  matches none ref = ok false
  matches (some bytes) ref = item "sha256" ref >>= λ v. ok (is_text (C.sha256_hex bytes) v)

  unfoldable pub verify : Dict Value → Files → Result Bool
  unfolding matches
  verify ref files = item "uri" ref >>= λ uri. elim uri [
    | str path ↦ matches (lookup path files) ref
    | _ ↦ err (type_error "expected str, bytes or os.PathLike object" [])
  ]

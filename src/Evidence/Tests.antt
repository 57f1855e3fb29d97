-- ===== src/Evidence/Tests.antt =====
-- A certificate that is stored, and then substituted.
use olivechain.Base.Texts.{lacks}
use olivechain.Base.{
  Bool, if◌then◌else◌, ℕ, String, [], ◌∷◌, lookup, insert, ◌≡◌, ◌↔◌, refl, false, true,
}
use olivechain.Result.{ok}
use olivechain.World.{crypto}
use olivechain.Evidence.{PathLibrary, evidence_path, reference, put, matches, verify}
use olivechain.Evidence.Anchored.{
  IsAnchored, ArePaths, put_all, verify-put_all, verify-reference_iff,
}

-- The path is the artifact's hash.
abbrev paths : PathLibrary
paths = record { basename = λ name. ""; join = λ root path. path }

substitute-Detected :
    verify paths crypto
      (reference paths crypto "store" "lab.pdf" (1 ∷ []))
      (insert (evidence_path paths crypto "store" "lab.pdf" (1 ∷ [])) (1 ∷ 2 ∷ []) [])
    ≡ ok false
unfolding verify matches reference lookup insert evidence_path
substitute-Detected = refl

lacks-either :
    (c : ℕ) (s t : String) (b : Bool)
    → lacks c s ≡ true
    → lacks c t ≡ true
    → lacks c (if b then s else t) ≡ true
lacks-either c s t true h k = h
lacks-either c s t false h k = k

paths-ArePaths : ArePaths paths crypto "store"
paths-ArePaths = record {
  no_slash = λ bytes. lacks-either 47 "even" "odd" _ refl refl;
  no_underscore = λ bytes. lacks-either 95 "even" "odd" _ refl refl;
  based = λ name. refl;
  joined = λ a b h k e. e;
}

verify-put_all_example :
    verify paths crypto (put paths crypto "store" "lab.pdf" (1 ∷ 2 ∷ []) []).0 (
      put_all paths crypto "store"
        (("lab.pdf", 3 ∷ []) ∷ [])
        (put paths crypto "store" "lab.pdf" (1 ∷ 2 ∷ []) []).1)
    ≡ ok true
verify-put_all_example =
    verify-put_all paths crypto "store" paths-ArePaths "lab.pdf" (1 ∷ 2 ∷ []) []
      (("lab.pdf", 3 ∷ []) ∷ [])

verify-reference_iff_example :
    (verify paths crypto (reference paths crypto "store" "lab.pdf" (1 ∷ [])) [] ≡ ok true)
    ↔ IsAnchored paths crypto "store" "lab.pdf" (1 ∷ []) []
verify-reference_iff_example = verify-reference_iff paths crypto "store" "lab.pdf" (1 ∷ []) []

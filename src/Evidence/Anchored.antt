-- ===== src/Evidence/Anchored.antt =====
-- References stay good while artifacts are only added, and a substituted file is detected.
use text.Mathlib.TextLemmas.{nil-append, cons-append}
use olivechain.Base.Texts.{split_at, lacks, lacks-append, split_at-append}
use olivechain.Base.{
  ◌<>◌, ℕ, String, Bool, true, false, Bool-cases, Option, Option-cases, none, some, List, [], ◌∷◌,
  lookup, lookup-insert, ◌==◌, eq_iff, eq_refl, ◌≡◌, ◌↔◌, refl, sym, ◌∙◌, ap, inl, inr,
  if◌then◌else◌,
}
use olivechain.Crypto.{Crypto}
use olivechain.Result.{ok, ok-injective}
use olivechain.Evidence.{PathLibrary, Files, evidence_path, reference, put, matches, verify}

underscore_first : (s : String) → split_at 95 ("_" <> s) ≡ some ("", s)
unfolding split_at
underscore_first s = ap (split_at 95) (cons-append "_" "" s ∙ ap (String.◌∷◌ "_") (nil-append s))

module _ (O : PathLibrary) (C : Crypto) where
  -- The artifacts that are put, one after the other.
  unfoldable pub put_all : String → List (String × List ℕ) → Files → Files
  put_all root [] files = files
  put_all root ((name, bytes) ∷ more) files = put_all root more (put O C root name bytes files).1

  -- A file is found by the reference to an artifact, and has the artifact's hash.
  abbrev pub IsAnchored : String → String → List ℕ → Files → Type 0
  IsAnchored root name bytes files =
      (held : List ℕ) × (lookup (evidence_path O C root name bytes) files ≡ some held)
      × (C.sha256_hex held ≡ C.sha256_hex bytes)

  -- `verify` on a reference that `put` has made, by what the file holds.
  verify-held :
      (root name : String) (bytes : List ℕ) (files : Files) (found : Option (List ℕ))
      → lookup (evidence_path O C root name bytes) files ≡ found
      → verify O C (reference O C root name bytes) files
        ≡ ok (elim found as (λ o. Bool) [
          | none ↦ false
          | some held ↦ C.sha256_hex bytes == C.sha256_hex held
        ])
  unfolding verify reference lookup matches
  verify-held root name bytes files none h =
      ap (λ o. matches O C o (reference O C root name bytes)) h
  verify-held root name bytes files (some held) h =
      ap (λ o. matches O C o (reference O C root name bytes)) h

  -- A reference that put has made verifies exactly when there is a file at its path, and the
  -- file's bytes have the hash that the artifact had: a file that is missing, or substituted by
  -- one of another hash, is detected.
  pub verify-reference_iff :
      (root name : String) (bytes : List ℕ) (files : Files)
      → (verify O C (reference O C root name bytes) files ≡ ok true)
        ↔ IsAnchored root name bytes files
  verify-reference_iff root name bytes files = (
    λ h. elim (Option-cases (lookup (evidence_path O C root name bytes) files)) [
      | inl missing ↦ absurd (cc (sym (verify-held root name bytes files none missing) ∙ h))
      | inr (held, found) ↦ (
        held,
        found,
        sym (
            (eq_iff (C.sha256_hex bytes) (C.sha256_hex held)).0
              (ok-injective (sym (verify-held root name bytes files (some held) found) ∙ h))),
      )
    ],
    λ (held, found, same).
        verify-held root name bytes files (some held) found
        ∙ ap ok ((eq_iff (C.sha256_hex bytes) (C.sha256_hex held)).1 (sym same)),
  )

  put-IsAnchored :
      (root name : String) (bytes : List ℕ) (files : Files)
      → IsAnchored root name bytes (put O C root name bytes files).1
  unfolding put
  put-IsAnchored root name bytes files = (
    bytes,
    lookup-insert (evidence_path O C root name bytes) (evidence_path O C root name bytes) bytes
          files
        ∙ ap (λ b. if b then some bytes else lookup (evidence_path O C root name bytes) files)
            (eq_refl (evidence_path O C root name bytes)),
    refl,
  )

  -- What the digits of a hash, the base of a name and a joined path are: a hash in hexadecimal holds
  -- no "/" and no "_", a base no "/", and names without a "/" stay apart under one directory.
  pub record ArePaths (root : String) : Type 0 where
    pub no_slash : (bytes : List ℕ) → lacks 47 (C.sha256_hex bytes) ≡ true
    pub no_underscore : (bytes : List ℕ) → lacks 95 (C.sha256_hex bytes) ≡ true
    pub based : (name : String) → lacks 47 (O.basename name) ≡ true
    pub joined :
        (a b : String)
        → lacks 47 a ≡ true
        → lacks 47 b ≡ true
        → O.join root a ≡ O.join root b
        → a ≡ b

  module _ (root : String) (paths : ArePaths root) where
    plain :
        (name : String) (bytes : List ℕ)
        → lacks 47 (C.sha256_hex bytes <> "_" <> O.basename name) ≡ true
    plain name bytes =
        lacks-append 47 (C.sha256_hex bytes) ("_" <> O.basename name) (paths.no_slash bytes)
          (lacks-append 47 "_" (O.basename name) refl (paths.based name))

    cut :
        (name : String) (bytes : List ℕ)
        → split_at 95 (C.sha256_hex bytes <> "_" <> O.basename name)
          ≡ some (C.sha256_hex bytes, O.basename name)
    cut name bytes =
        split_at-append 95 (C.sha256_hex bytes) ("_" <> O.basename name) (O.basename name)
          (paths.no_underscore bytes) (underscore_first (O.basename name))

    hash_in_path :
        (name name' : String) (bytes bytes' : List ℕ)
        → evidence_path O C root name bytes ≡ evidence_path O C root name' bytes'
        → C.sha256_hex bytes ≡ C.sha256_hex bytes'
    unfolding evidence_path
    hash_in_path name name' bytes bytes' h =
        let file : String → List ℕ → String =
          λ name bytes. C.sha256_hex bytes <> "_" <> O.basename name in
        let same : file name bytes ≡ file name' bytes' =
          paths.joined (file name bytes) (file name' bytes') (plain name bytes) (plain name' bytes')
            h in
        ap (λ o. elim o as (λ o. String) [ none ↦ C.sha256_hex bytes | some parts ↦ parts.0 ])
          (sym (cut name bytes) ∙ ap (split_at 95) same ∙ cut name' bytes')

    put-keeps :
        (name name' : String) (bytes bytes' : List ℕ) (files : Files)
        → IsAnchored root name bytes files
        → IsAnchored root name bytes (put O C root name' bytes' files).1
    unfolding put
    put-keeps name name' bytes bytes' files (held, found, same) =
        elim (Bool-cases
          (evidence_path O C root name' bytes' == evidence_path O C root name bytes)) [
            | inl over ↦ (
              bytes',
              lookup-insert (evidence_path O C root name' bytes')
                    (evidence_path O C root name bytes) bytes' files
                  ∙ ap
                      (λ b.
                        if b then some bytes' else lookup (evidence_path O C root name bytes) files)
                      over,
              hash_in_path name' name bytes' bytes (
                  (eq_iff (evidence_path O C root name' bytes')
                      (evidence_path O C root name bytes)).0
                    over),
            )
            | inr other ↦ (
              held,
              lookup-insert (evidence_path O C root name' bytes')
                    (evidence_path O C root name bytes) bytes' files
                  ∙ ap
                      (λ b.
                        if b then some bytes' else lookup (evidence_path O C root name bytes) files)
                      other
                  ∙ found,
              same,
            )
          ]

    put_all-keeps :
        (name : String) (bytes : List ℕ) (more : List (String × List ℕ)) (files : Files)
        → IsAnchored root name bytes files
        → IsAnchored root name bytes (put_all root more files)
    unfolding put_all
    put_all-keeps name bytes [] files a = a
    put_all-keeps name bytes ((name', bytes') ∷ more) files a =
        put_all-keeps name bytes more (put O C root name' bytes' files).1
          (put-keeps name name' bytes bytes' files a)

    -- The reference that put has returned for an artifact verifies after it, and still after any
    -- further artifacts have been put, of the same name or not; if hexadecimal hashes, bases of
    -- names and joined paths are as in ArePaths.
    pub verify-put_all :
        (name : String) (bytes : List ℕ) (files : Files) (more : List (String × List ℕ))
        → verify O C
            (put O C root name bytes files).0
            (put_all root more (put O C root name bytes files).1)
          ≡ ok true
    unfolding put
    verify-put_all name bytes files more =
        (verify-reference_iff root name bytes
            (put_all root more (put O C root name bytes files).1)).1
          (put_all-keeps name bytes more (put O C root name bytes files).1
            (put-IsAnchored root name bytes files))

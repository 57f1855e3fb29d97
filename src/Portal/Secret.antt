-- ===== src/Portal/Secret.antt =====
-- `_load_or_create_secret` of portal_auth.py: the secret of the environment, of its file, or a fresh
-- one of `token_urlsafe`, which is then written. SHA-256 is an argument.
use olivechain.Base.{
  ℕ, ◌≤◌, String, ◌<>◌, Bool, true, false, not, Option, none, some, List, ◌==◌, ◌≡◌, refl, ◌∙◌, ap,
  length, leb, if◌then◌else◌, arith,
}
use olivechain.Base.Filter.{if-elim}
use olivechain.Json.Dump.{codes, encode}
use olivechain.Portal.Identity.{PortalLibrary}

module _ (L : PortalLibrary) (sha256 : List ℕ → List ℕ) where
  -- The secret, with the file after it has been looked for.
  abbrev create_secret : String → List ℕ × Option String
  create_secret fresh = (sha256 (encode fresh), some (fresh <> "\n"))

  abbrev secret_in : Option String → String → List ℕ × Option String
  secret_in none fresh = create_secret fresh
  secret_in (some text) fresh =
      if leb 32 (length (codes (L.strip text)))
      then (sha256 (encode (L.strip text)), some text)
      else create_secret fresh

  unfoldable pub load_or_create_secret : String → String → Option String → List ℕ × Option String
  load_or_create_secret configured fresh file =
      if not (L.strip configured == "")
      then (sha256 (encode (L.strip configured)), file)
      else secret_in file fresh

  long_enough : (cs : List ℕ) → 32 ≤ length cs → leb 32 (length cs) ≡ true
  long_enough cs h = ground arith

  written-Loads :
      (fresh other : String)
      → L.strip (fresh <> "\n") ≡ fresh
      → 32 ≤ length (codes fresh)
      → secret_in (some (fresh <> "\n")) other ≡ create_secret fresh
  written-Loads fresh other stripped long =
      ap
        (λ raw.
          if leb 32 (length (codes raw))
          then (sha256 (encode raw), some (fresh <> "\n"))
          else create_secret other)
        stripped
      ∙ ap (λ b. if b then (sha256 (encode fresh), some (fresh <> "\n")) else create_secret other)
          (long_enough (codes fresh) long)

  secret_in-again :
      (file : Option String) (fresh other : String)
      → L.strip (fresh <> "\n") ≡ fresh
      → 32 ≤ length (codes fresh)
      → secret_in (secret_in file fresh).1 other ≡ secret_in file fresh
  secret_in-again none fresh other stripped long = written-Loads fresh other stripped long
  secret_in-again (some text) fresh other stripped long =
      if-elim (λ (r : List ℕ × Option String). secret_in r.1 other ≡ r)
        (leb 32 (length (codes (L.strip text)))) (sha256 (encode (L.strip text)), some text)
        (create_secret fresh)
        (λ kept.
          ap (λ b. if b then (sha256 (encode (L.strip text)), some text) else create_secret other)
            kept)
        λ short. written-Loads fresh other stripped long

  again :
      (set : Bool) (secret : List ℕ) (fresh other : String) (file : Option String)
      → L.strip (fresh <> "\n") ≡ fresh
      → 32 ≤ length (codes fresh)
      → (if set
          then (secret, (if set then (secret, file) else secret_in file fresh).1)
          else secret_in (if set then (secret, file) else secret_in file fresh).1 other)
        ≡ (if set then (secret, file) else secret_in file fresh)
  again true secret fresh other file stripped long = refl
  again false secret fresh other file stripped long = secret_in-again file fresh other stripped long

  -- A server that starts again, with the same environment and the file that the first start left,
  -- has the same secret, whatever a fresh one would be, and leaves the file as it is; if the text
  -- that token_urlsafe gives has 32 characters at least, and is what strip makes of its line.
  pub load_or_create_secret-again :
      (configured fresh other : String) (file : Option String)
      → L.strip (fresh <> "\n") ≡ fresh
      → 32 ≤ length (codes fresh)
      → load_or_create_secret configured other (load_or_create_secret configured fresh file).1
        ≡ load_or_create_secret configured fresh file
  unfolding load_or_create_secret
  load_or_create_secret-again configured fresh other file stripped long =
      again (not (L.strip configured == "")) (sha256 (encode (L.strip configured))) fresh other file
        stripped long

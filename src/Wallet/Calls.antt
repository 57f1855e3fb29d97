-- ===== src/Wallet/Calls.antt =====
-- Sequences of calls on the challenges that issue none for an address leave none for it.
use olivechain.Effects.{Exec, pure, ◌>>=◌}
use olivechain.Effects.Ensures.{
  Ensures, bind-Ensures, drop-Ensures, done-Ensures, reads-Ensures, pure-Ensures, or_raise-Ensures,
  raise_if-Ensures, modify-Ensures,
}
use olivechain.Base.{
  lookup-insert, insert, not, List, All, Bool, true, false, Option, ◌||◌, ℕ, ◌+◌, String, ◌≡◌, refl,
  ◌∙◌, ap, inl, inr, none, some, [], ◌∷◌, lookup, erase, lookup-erase, ◌==◌, eq_iff, arith,
  if◌then◌else◌, Bool-cases,
}
use olivechain.Crypto.{Crypto}
use olivechain.Result.{ok}
use olivechain.Wallet.Address.{WalletLibrary, fail, validate_address, expected_address}
use olivechain.Wallet.{
  Challenge, Challenges, purge, take_challenge, check_signature, verify_challenge, issue_challenge,
  challenge_message,
}

-- No purge brings an address in.
pub lookup-purge-none :
    (address : String) (now : ℕ) (s : Challenges)
    → lookup address s ≡ none
    → lookup address (purge now s) ≡ none
unfolding lookup purge
lookup-purge-none address now [] h = refl
lookup-purge-none address now ((a, c) ∷ s) h = ground (arith, lookup-purge-none address now s)

same_both : (o : Option Challenge) (b : Bool) → (if b then o else o) ≡ o
same_both o true = refl
same_both o false = refl

module _ (W : WalletLibrary) (C : Crypto) where
  pub check_signature-state :
      (challenge : Challenge) (key signature : String) (s : Challenges)
      → (check_signature W C challenge key signature s).1 ≡ s
  unfolding check_signature
  check_signature-state challenge key signature s = ground arith

  -- The calls that the server makes of the store of challenges.
  pub data Call : Type 0 where
    verify : String → String → String → String → ℕ → Call
    issue : ℕ → String → String → ℕ → String → Call

  unfoldable pub perform : Call → Exec Challenges (Unit {0})
  perform (verify wallet key signature purpose now) =
      verify_challenge W C wallet key signature purpose now
  perform (issue ttl wallet purpose now nonce) =
      issue_challenge W C ttl wallet purpose now nonce >>= λ issued. pure tt

  unfoldable pub run : List Call → Challenges → Challenges
  unfolding perform
  run [] s = s
  run (call ∷ calls) s = run calls (perform call s).1

  -- A call that issues no challenge for the address.
  abbrev pub Spares : String → Call → Type 0
  Spares address (verify wallet key signature purpose now) = Unit
  Spares address (issue ttl wallet purpose now nonce) = ¬ (validate_address W C wallet ≡ ok address)

  abbrev pub HasNone : String → Challenges → Type 0
  HasNone address s = lookup address s ≡ none

  erase-HasNone :
      (address other : String) (s : Challenges)
      → HasNone address s
      → HasNone address (erase other s)
  erase-HasNone address other s h =
      lookup-erase other address s
      ∙ ap (λ o. if other == address then none else o) h
      ∙ same_both none (other == address)

  take_challenge-Ensures :
      (address other : String) (now : ℕ)
      → Ensures (HasNone address) (take_challenge other now) (λ found. Unit {0})
  unfolding take_challenge
  take_challenge-Ensures address other now = record {
    at = λ s h. (
      erase-HasNone address other (purge now s) (lookup-purge-none address now s h),
      λ found r. tt,
    );
  }

  check_signature-Ensures :
      (address : String) (challenge : Challenge) (key signature : String)
      → Ensures (HasNone address) (check_signature W C challenge key signature) (λ done. Unit {0})
  check_signature-Ensures address challenge key signature = record {
    at = λ s h.
        (ap (lookup address) (check_signature-state challenge key signature s) ∙ h, λ done r. tt);
  }

  verify_challenge-Ensures :
      (address wallet key signature purpose : String) (now : ℕ)
      → Ensures
          (HasNone address)
          (verify_challenge W C wallet key signature purpose now)
          (λ done. Unit {0})
  unfolding verify_challenge
  verify_challenge-Ensures address wallet key signature purpose now =
      bind-Ensures (reads-Ensures (validate_address W C wallet)) λ own valid.
        bind-Ensures (reads-Ensures (expected_address W C key)) λ expected known.
          bind-Ensures
            (raise_if-Ensures (not (expected == own))
              (fail "wallet address does not match public key"))
            λ a same. bind-Ensures (take_challenge-Ensures address own now) λ found taken.
              bind-Ensures (or_raise-Ensures found (fail "wallet challenge is missing or expired"))
                λ challenge is.
                  bind-Ensures
                    (raise_if-Ensures (not (challenge.purpose == purpose))
                      (fail "wallet challenge purpose does not match"))
                    λ b for. check_signature-Ensures address challenge key signature

  issue-HasNone :
      (address other : String) (now : ℕ) (challenge : Challenge) (s : Challenges)
      → ¬ (other ≡ address)
      → HasNone address s
      → HasNone address (insert other challenge (purge now s))
  issue-HasNone address other now challenge s apart h = elim (Bool-cases (other == address)) [
    | inl same ↦ absurd (apart ((eq_iff other address).0 same))
    | inr differs ↦
        lookup-insert other address challenge (purge now s)
        ∙ ap (λ b. if b then some challenge else lookup address (purge now s)) differs
        ∙ lookup-purge-none address now s h
  ]

  issue_challenge-Ensures :
      (address : String) (ttl : ℕ) (wallet purpose : String) (now : ℕ) (nonce : String)
      → ¬ (validate_address W C wallet ≡ ok address)
      → Ensures
          (HasNone address)
          (issue_challenge W C ttl wallet purpose now nonce)
          (λ issued. Unit {0})
  unfolding issue_challenge
  issue_challenge-Ensures address ttl wallet purpose now nonce spared =
      bind-Ensures (reads-Ensures (validate_address W C wallet)) λ other valid.
        let purpose = W.lower (W.strip purpose) in
        let challenge : Challenge = record {
          message = challenge_message W C purpose other nonce now;
          purpose = purpose;
          expires_at = now + ttl;
        } in
        bind-Ensures
          (raise_if-Ensures (not (purpose == "login" || purpose == "register"))
            (fail "invalid wallet challenge purpose"))
          λ a known.
            bind-Ensures
              (modify-Ensures (λ s. insert other challenge (purge now s))
                (λ s h.
                  issue-HasNone address other now challenge s (λ same. spared (valid ∙ ap ok same))
                    h))
              λ b done. done-Ensures (pure-Ensures (other, challenge))

  perform-Ensures :
      (address : String) (call : Call)
      → Spares address call
      → Ensures (HasNone address) (perform call) (λ done. Unit {0})
  unfolding perform
  perform-Ensures address (verify wallet key signature purpose now) spared =
      verify_challenge-Ensures address wallet key signature purpose now
  perform-Ensures address (issue ttl wallet purpose now nonce) spared =
      drop-Ensures (issue_challenge-Ensures address ttl wallet purpose now nonce spared)

  pub run-HasNone :
      (address : String) (calls : List Call) (s : Challenges)
      → All (Spares address) calls
      → HasNone address s
      → HasNone address (run calls s)
  unfolding run
  run-HasNone address [] s spared h = h
  run-HasNone address (call ∷ calls) s (first, rest) h =
      run-HasNone address calls (perform call s).1 rest
        ((perform-Ensures address call first).at s h).0

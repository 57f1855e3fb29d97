-- ===== src/Wallet/Challenges.antt =====
-- A challenge is good for one login, of one wallet, before it expires.
use mathlib.Core.Path.{subst}
use olivechain.Base.{
  List, All, ℕ, ◌<◌, String, ◌≡◌, sym, ◌∙◌, ap, inl, inr, none, some, Option-cases, [], ◌∷◌, lookup,
  erase, lookup-erase, ◌==◌, eq_iff, eq_refl, arith, if◌then◌else◌, leb, Bool-cases,
}
use olivechain.Crypto.{Crypto}
use olivechain.Result.{ok, Result-cases, ok-injective}
use olivechain.Wallet.Address.{WalletLibrary, validate_address, expected_address}
use olivechain.Wallet.{
  Challenge, Challenges, purge, take_challenge, check_signature, verify_challenge,
}
use olivechain.Wallet.Calls.{
  lookup-purge-none, check_signature-state, Call, Spares, HasNone, run, run-HasNone,
}

module _ (W : WalletLibrary) (C : Crypto) where
  verify-popped :
      (wallet key signature purpose : String) (now : ℕ) (s : Challenges)
      → (verify_challenge W C wallet key signature purpose now s).0 ≡ ok tt
      → (address : String) × (challenge : Challenge) × (validate_address W C wallet ≡ ok address)
        × (expected_address W C key ≡ ok address)
        × (lookup address (purge now s) ≡ some challenge)
        × (challenge.purpose ≡ purpose)
        × ((check_signature W C challenge key signature (erase address (purge now s))).0 ≡ ok tt)
        × ((verify_challenge W C wallet key signature purpose now s).1
            ≡ erase address (purge now s))
  unfolding verify_challenge take_challenge
  verify-popped wallet key signature purpose now s h =
      elim (Result-cases (validate_address W C wallet)) [
        | inr (x, bad) ↦ absurd (ground arith)
        | inl (address, valid) ↦ elim (Result-cases (expected_address W C key)) [
          | inr (x, bad) ↦ absurd (ground arith)
          | inl (expected, known) ↦ elim (Option-cases (lookup address (purge now s))) [
            | inl missing ↦ absurd (ground arith)
            | inr (challenge, found) ↦
                let same : expected ≡ address = ground (arith, eq_iff expected address) in
                (
                  address,
                  challenge,
                  valid,
                  known ∙ ap ok same,
                  found,
                  ground (arith, eq_iff challenge.purpose purpose),
                  ground (arith, eq_iff expected address),
                  ground (
                    arith,
                    eq_iff expected address,
                    check_signature-state W C challenge key signature (erase address (purge now s)),
                  ),
                )
          ]
        ]
      ]

  -- A purge keeps only what has not expired.
  purge-Unexpired :
      (address : String) (now : ℕ) (s : Challenges) (c : Challenge)
      → lookup address (purge now s) ≡ some c
      → now < c.expires_at
  unfolding lookup purge
  purge-Unexpired address now [] c h = cc
  purge-Unexpired address now ((a, d) ∷ s) c h = elim (Bool-cases (leb d.expires_at now)) [
    | inl gone ↦ purge-Unexpired address now s c (ground arith)
    | inr kept ↦ elim (Bool-cases (a == address)) [
      | inl here ↦
          let same : d ≡ c = ground arith in subst (λ c. now < c.expires_at) same (ground arith)
      | inr there ↦ purge-Unexpired address now s c (ground arith)
    ]
  ]

  refuses :
      (address wallet key signature purpose : String) (now : ℕ) (s : Challenges)
      → validate_address W C wallet ≡ ok address
      → HasNone W C address s
      → ¬ ((verify_challenge W C wallet key signature purpose now s).0 ≡ ok tt)
  refuses address wallet key signature purpose now s valid h done =
      let (address', challenge', valid', _, found', _, _, _) =
        verify-popped wallet key signature purpose now s done in
      let same : address ≡ address' = ok-injective (sym valid ∙ valid') in
      let gone : lookup address (purge now s) ≡ none = lookup-purge-none address now s h in
      absurd (cc (gone, found', same))

  -- A login that succeeds is by the wallet whose public key has the address that it claims, and
  -- answers a challenge that the store holds for that address and purpose and that has not expired,
  -- with a signature that the checks on it accept; and the challenge is spent: after any sequence of calls
  -- of verify_challenge and issue_challenge, successful or not, none of which issues a challenge for
  -- the address, every call of verify_challenge for the address fails, however the address is spelt
  -- and at whatever time.
  pub verify_challenge-Once :
      (address wallet key signature purpose : String) (now : ℕ) (s : Challenges)
      → validate_address W C wallet ≡ ok address
      → (verify_challenge W C wallet key signature purpose now s).0 ≡ ok tt
      → (calls : List (Call W C)) → All (Spares W C address) calls
      → (wallet' key' signature' purpose' : String) (now' : ℕ)
      → validate_address W C wallet' ≡ ok address
      → ((challenge : Challenge) × (expected_address W C key ≡ ok address)
          × (lookup address (purge now s) ≡ some challenge)
          × (now < challenge.expires_at)
          × (challenge.purpose ≡ purpose)
          × ((check_signature W C challenge key signature (erase address (purge now s))).0 ≡ ok tt))
        × ¬ (
            (verify_challenge W C wallet' key' signature' purpose' now'
              (run W C calls (verify_challenge W C wallet key signature purpose now s).1)).0
            ≡ ok tt)
  verify_challenge-Once address wallet key signature purpose now s claimed h calls spared wallet'
        key' signature' purpose' now' spelt =
      let (own, challenge, valid, known, found, for, signed, after) =
        verify-popped wallet key signature purpose now s h in
      let same : own ≡ address = ok-injective (sym valid ∙ claimed) in
      let spent : HasNone W C own (erase own (purge now s)) =
        lookup-erase own own (purge now s)
        ∙ ap (λ b. if b then none else lookup own (purge now s)) (eq_refl own) in
      let gone : HasNone W C address (verify_challenge W C wallet key signature purpose now s).1 =
        subst (λ a. HasNone W C a (verify_challenge W C wallet key signature purpose now s).1) same
          (ap (lookup own) after ∙ spent) in
      (
        (
          challenge,
          known ∙ ap ok same,
          subst (λ a. lookup a (purge now s) ≡ some challenge) same found,
          purge-Unexpired own now s challenge found,
          for,
          subst
              (λ a. (check_signature W C challenge key signature (erase a (purge now s))).0 ≡ ok tt)
              same signed,
        ),
        refuses address wallet' key' signature' purpose' now' _ spelt
            (run-HasNone W C address calls _ spared gone),
      )

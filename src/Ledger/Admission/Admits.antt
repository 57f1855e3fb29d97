-- ===== src/Ledger/Admission/Admits.antt =====
-- Whom append and commit_prepared admit, and that append refuses nobody whom it should admit.
use olivechain.Base.{
  none, some, eq_iff, String, Bool, true, false, not, ◌&&◌, ◌≡◌, refl, sym, ◌∙◌, ap, ◌⊎◌, inl, inr,
  List, [], arith, Option-cases, get_elem?, ◌==◌, ℕ,
}
use olivechain.Crypto.{Crypto, IsSound}
use olivechain.Json.{Value, Floats}
use olivechain.Json.Access.{item}
use olivechain.Event.{Event, signing_body}
use olivechain.Models.{EventType, is_correction}
use olivechain.Registry
use olivechain.Registry.{Organization, has_role_name}
use olivechain.Result.{Result, ok, err, Result-cases}
use olivechain.Ledger.Admission.{Admitted, IsSigned, prepare-Admitted, append-eq-land}
use olivechain.Ledger.History.{prepare-state}
use olivechain.Ledger.{
  Ledger, Submission, land, supersede, store, correctable, find_target, head_hash, unsigned,
  permitted, missing_fields, prepare, append,
}

-- The correction is of an event of the ledger, by the organisation that recorded it or by an
-- authority.
abbrev pub MayCorrect : Ledger → Value → Organization → String → Type 0
MayCorrect l target org actor =
    (i : ℕ) × (e : Event) × (find_target target l ≡ ok (some i))
    × (get_elem? l.events i ≡ some e)
    × ((e.actor_org ≡ actor) ⊎ (has_role_name org "authority" ≡ true))

actor_or_authority :
    (a b : String) (r : Bool) → not (a == b) && not r ≡ false → (a ≡ b) ⊎ (r ≡ true)
actor_or_authority a b r h = ground (arith, eq_iff a b)

-- What a successful `correctable` has found.
correctable-MayCorrect :
    (v : Value) (a : String) (org : Organization) (l : Ledger) {i : ℕ}
    → (correctable v a org l).0 ≡ ok i
    → MayCorrect l v org a
unfolding correctable
correctable-MayCorrect v a org l h = elim (Result-cases (find_target v l)) [
  | inr (x, refused) ↦ absurd (ground arith)
  | inl (none, found) ↦ absurd (ground arith)
  | inl (some i, found) ↦ elim (Option-cases (get_elem? l.events i)) [
    | inl missing ↦ absurd (ground arith)
    | inr (e, at) ↦ (
      i,
      e,
      found,
      at,
      actor_or_authority e.actor_org a (has_role_name org "authority") (ground arith),
    )
  ]
]

supersede-MayCorrect :
    (v : Value) (a id : String) (org : Organization) (l : Ledger)
    → (supersede v a id org l).0 ≡ ok tt
    → MayCorrect l v org a
unfolding supersede
supersede-MayCorrect v a id org l h = elim (Result-cases (correctable v a org l).0) [
  | inl (i, may) ↦ correctable-MayCorrect v a org l may
  | inr (x, refused) ↦ absurd (ground arith)
]

land-MayCorrect :
    (t : EventType) (target : Result Value) (org : Organization) (ev : Event) (l : Ledger)
    {ev' : Event}
    → is_correction t ≡ true
    → (land t target org ev l).0 ≡ ok ev'
    → (v : Value) × (target ≡ ok v) × MayCorrect l v org ev.actor_org
unfolding land
land-MayCorrect t (err x) org ev l c h = absurd (ground arith)
land-MayCorrect t (ok v) org ev l c h =
    (v, refl, supersede-MayCorrect v ev.actor_org ev.event_id org l (ground arith))

module _ (F : Floats) (C : Crypto) where
  -- An event that `append` returns is from a registered organisation whose roles permit the type,
  -- has every required field, names the head of the chain, and carries the hash of what it holds
  -- and a signature that verifies under the organisation's registered key. If it is a correction,
  -- the organisation recorded the corrected event or is an authority.
  pub append-Admitted :
      (s : Submission) (l : Ledger) {ev : Event}
      → (append F C s l).0 ≡ ok ev
      → (org : Organization) × Admitted F C l s.event_type org ev
        × IsSigned F C org ev
        × (is_correction s.event_type ≡ true
            → (v : Value) × (item "supersedes_event" s.payload ≡ ok v)
              × MayCorrect l v org ev.actor_org)
  append-Admitted s l {ev} h =
      let (org, checked, lands) = append-eq-land F C s l h in
      let (admitted, signed, _, _) = prepare-Admitted F C s l checked in
      (
        org,
        admitted,
        signed,
        λ c. land-MayCorrect s.event_type _ org ev l c (sym (ap (λ w. w.0) lands) ∙ h),
      )

  prepare-succeeds :
      (s : Submission) (l : Ledger) (org : Organization)
      → ((m : List ℕ) → C.verify_signature org.public_key m (C.sign s.keypair m) ≡ true)
      → Registry.get s.actor_org l.registry ≡ ok org
      → permitted org s.event_type ≡ true
      → missing_fields s.event_type s.payload ≡ []
      → (c : Organization × Event) × ((prepare F C s l).0 ≡ ok c)
  unfolding prepare
  prepare-succeeds s l org verifies registered permission complete =
      elim (Result-cases (prepare F C s l).0) [
        | inl found ↦ found
        | inr (x, refused) ↦
            absurd (ground (arith, verifies (signing_body F (unsigned s (head_hash l)))))
      ]

  -- `append` takes every event that it should: one that is no correction, of a registered
  -- organisation whose roles permit the type, with every required field, and with the key pair
  -- whose public key is registered; given that signatures verify under their public keys.
  pub append-succeeds :
      (s : Submission) (l : Ledger) (org : Organization)
      → IsSound C
      → Registry.get s.actor_org l.registry ≡ ok org
      → permitted org s.event_type ≡ true
      → missing_fields s.event_type s.payload ≡ []
      → org.public_key ≡ C.public_hex s.keypair
      → is_correction s.event_type ≡ false
      → (ev : Event) × ((append F C s l).0 ≡ ok ev)
  unfolding append land store
  append-succeeds s l org sound registered permission complete key plain =
      let verifies = λ (m : List ℕ).
        ap (λ k. C.verify_signature k m (C.sign s.keypair m)) key ∙ sound.verify-sign s.keypair m in
      let (c, checked) = prepare-succeeds s l org verifies registered permission complete in
      (c.1, (ground (arith, prepare-state F C s l)))

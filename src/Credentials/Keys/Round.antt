-- ===== src/Credentials/Keys/Round.antt =====
-- The key that is read from a `did:key` is the one that it was made of.
use text.Mathlib.TextLemmas.{nil-append, cons-append}
use Prim.Native.Char.{code}
use olivechain.Base.{
  ℕ, zero, suc, String, ◌<>◌, Bool, true, not, none, some, List, [], ◌∷◌, ◌≡◌, refl, ◌∙◌, ap, eqb,
  arith,
}
use olivechain.Base.Texts.{split_at, lacks, lacks-append, split_at-append, strip_prefix-append}
use olivechain.Result.{ok, value_error, or_raise, ◌>>=◌}
use olivechain.Credentials.Base58.{b58encode, text_of, pad_ones, leading, b58_alphabet, char_at}
use olivechain.Credentials.Base58.Round.{b58decode-b58encode, of_digits, of_digits_lem}
use olivechain.Credentials.Digits.{AreDigits, digits, value_from, digits-AreDigits}
use olivechain.Credentials.Keys.{
  HexLibrary, multicodec, strip_multicodec, before_fragment, did_key_ed25519,
  public_hex_from_did_key,
}

abbrev is_no_hash : ℕ → Bool
is_no_hash d = not (eqb (code (char_at b58_alphabet d)) 35)

all_no_hash : of_digits is_no_hash 58 ≡ true
unfolding of_digits char_at
all_no_hash = refl

lacks-text_of : (ds : List ℕ) → AreDigits 58 ds → lacks 35 (text_of ds) ≡ true
unfolding text_of
lacks-text_of [] small = refl
lacks-text_of (d ∷ ds) (low, small) =
    let fact = of_digits_lem is_no_hash d 58 low all_no_hash in
    ground (arith, lacks-text_of ds small)

lacks-pad_ones : (k : ℕ) (s : String) → lacks 35 s ≡ true → lacks 35 (pad_ones k s) ≡ true
unfolding pad_ones
lacks-pad_ones zero s h = h
lacks-pad_ones (suc k) s h = lacks-pad_ones k s h

lacks-b58encode : (bs : List ℕ) → lacks 35 (b58encode bs) ≡ true
unfolding b58encode
lacks-b58encode bs =
    lacks-pad_ones (leading 0 bs) (text_of (digits 58 (value_from 256 0 bs)))
      (lacks-text_of _ (digits-AreDigits 58 (omega arith) (value_from 256 0 bs)))

hash_first : (f : String) → split_at 35 ("#" <> f) ≡ some ("", f)
unfolding split_at
hash_first f = ap (split_at 35) (cons-append "#" "" f ∙ ap (String.◌∷◌ "#") (nil-append f))

before_fragment-append :
    (did f : String) → lacks 35 did ≡ true → before_fragment (did <> "#" <> f) ≡ did
unfolding before_fragment
before_fragment-append did f h =
    ap (λ o. elim o as (λ o. String) [ none ↦ did <> "#" <> f | some parts ↦ parts.0 ])
      (split_at-append 35 did ("#" <> f) f h (hash_first f))

module _ (H : HexLibrary) where
  -- A key whose hexadecimal text is of bytes, and is what hex() makes of them, is read back from
  -- its did:key, with any fragment behind it.
  pub public_hex_from_did_key-did_key_ed25519 :
      (public_hex fragment : String) (raw : List ℕ)
      → H.from_hex public_hex ≡ some raw
      → H.to_hex raw ≡ public_hex
      → AreDigits 256 raw
      → (did : String) × (did_key_ed25519 H public_hex ≡ ok did)
        × (public_hex_from_did_key H (did <> "#" <> fragment) ≡ ok public_hex)
  unfolding did_key_ed25519 public_hex_from_did_key strip_multicodec
  public_hex_from_did_key-did_key_ed25519 public_hex fragment raw reads back small =
      let encoded = b58encode (multicodec raw) in
      let did : String = "did:key:z" <> encoded in
      let lacking = lacks-append 35 "did:key:z" encoded refl (lacks-b58encode (multicodec raw)) in
      (
        did,
        ap
            (λ o. or_raise o (value_error "non-hexadecimal number found" []) >>= λ raw.
              ok ("did:key:z" <> b58encode (multicodec raw)))
            reads,
        rw
            (
              before_fragment-append did fragment lacking,
              strip_prefix-append "did:key:z" encoded,
              b58decode-b58encode (multicodec raw) (omega arith, (omega arith, small)),
            )
            (ap ok back),
      )

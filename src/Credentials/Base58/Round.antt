-- ===== src/Credentials/Base58/Round.antt =====
-- Decoding what has been encoded gives the bytes back.
use Prim.Native.Char.{code}
use olivechain.Base.{
  ℕ, zero, suc, ◌+◌, ◌*◌, ◌<◌, ◌≤◌, length, String, Bool, true, false, not, Option, none, some,
  List, [], ◌∷◌, ◌≡◌, refl, sym, ◌∙◌, ap, eqb, if◌then◌else◌, arith,
}
use olivechain.Json.Dump.{codes}
use olivechain.Result.{ok, or_raise, value_error, ◌>>=◌}
use olivechain.Credentials.Digits.{
  digits, value_from, strip_zeros, AreDigits, value_from-digits, digits-AreDigits,
  digits-value_from, strip_zeros-digits,
}
use olivechain.Credentials.Base58.{
  b58_alphabet, char_at, index, leading, pad_ones, pad_zeros, text_of, b58encode, read_digits,
  b58decode,
}

-- A fact of every digit of the alphabet, by evaluation.
module _ (fact : ℕ → Bool) where
  unfoldable pub of_digits : ℕ → Bool
  of_digits zero = true
  of_digits (suc d) = if of_digits d then fact d else false

  pub of_digits_lem : (d base : ℕ) → d < base → of_digits base ≡ true → fact d ≡ true
  unfolding of_digits
  of_digits_lem d zero low h = absurd (omega arith)
  of_digits_lem d (suc base) low h = ground (arith, of_digits_lem d base)

abbrev is_at : Option ℕ → ℕ → Bool
is_at none d = false
is_at (some i) d = eqb i d

is_at-some : (o : Option ℕ) (d : ℕ) → is_at o d ≡ true → o ≡ some d
is_at-some none d h = cc
is_at-some (some i) d h = ap some (ground arith)

abbrev has_index : ℕ → Bool
has_index d = is_at (index (code (char_at b58_alphabet d)) (codes b58_alphabet)) d

all_indices : of_digits has_index 58 ≡ true
unfolding of_digits index char_at
all_indices = refl

-- The index of a digit's character is the digit.
index-char_at :
    (d : ℕ) → d < 58 → index (code (char_at b58_alphabet d)) (codes b58_alphabet) ≡ some d
index-char_at d h =
    is_at-some (index (code (char_at b58_alphabet d)) (codes b58_alphabet)) d
      (of_digits_lem has_index d 58 h all_indices)

abbrev is_one_at_zero : ℕ → Bool
is_one_at_zero d = if eqb (code (char_at b58_alphabet d)) 49 then eqb d 0 else not (eqb d 0)

all_ones : of_digits is_one_at_zero 58 ≡ true
unfolding of_digits char_at
all_ones = refl

same : (a b : Bool) → (if a then b else not b) ≡ true → a ≡ b
same true b h = sym h
same false true h = cc
same false false h = refl

-- Only the digit 0 is a "1".
code-char_at : (d : ℕ) → d < 58 → eqb (code (char_at b58_alphabet d)) 49 ≡ eqb d 0
code-char_at d h =
    let fact = of_digits_lem is_one_at_zero d 58 h all_ones in
    same (eqb (code (char_at b58_alphabet d)) 49) (eqb d 0) fact

read_digits-text_of :
    (n : ℕ) (ds : List ℕ) → AreDigits 58 ds → read_digits n (text_of ds) ≡ ok (value_from 58 n ds)
unfolding read_digits text_of value_from
read_digits-text_of n [] small = refl
read_digits-text_of n (d ∷ ds) (low, small) =
    ap
      (λ o. or_raise o (value_error "substring not found" []) >>= λ d.
        read_digits (n * 58 + d) (text_of ds))
      (index-char_at d low)
    ∙ read_digits-text_of (n * 58 + d) ds small

read_digits-pad_ones : (k : ℕ) (s : String) → read_digits 0 (pad_ones k s) ≡ read_digits 0 s
unfolding read_digits pad_ones index
read_digits-pad_ones zero s = refl
read_digits-pad_ones (suc k) s = read_digits-pad_ones k s

leading-pad_ones :
    (k : ℕ) (s : String) → leading 49 (codes (pad_ones k s)) ≡ k + leading 49 (codes s)
unfolding leading pad_ones
leading-pad_ones zero s = omega arith
leading-pad_ones (suc k) s = omega (arith, leading-pad_ones k s)

positive : (d : ℕ) → eqb (suc d) 0 ≡ false
positive d = ground arith

length-strip_zeros : (ds : List ℕ) → length (strip_zeros ds) ≤ length ds
length-strip_zeros [] = omega arith
length-strip_zeros (zero ∷ ds) = omega (arith, length-strip_zeros ds)
length-strip_zeros (suc d ∷ ds) = ground arith

leading-text_of :
    (ds : List ℕ) → AreDigits 58 ds → strip_zeros ds ≡ ds → leading 49 (codes (text_of ds)) ≡ 0
unfolding leading text_of
leading-text_of [] small h = refl
leading-text_of (zero ∷ ds) small h =
    absurd (omega (arith, length-strip_zeros ds, ap (λ l. length l) h))
leading-text_of (suc d ∷ ds) (low, small) h =
    ap (λ b. if b then suc (leading 49 (codes (text_of ds))) else 0)
      (code-char_at (suc d) low ∙ positive d)

-- The zeros in front, and what is behind them.
pad_zeros-strip_zeros : (bs : List ℕ) → pad_zeros (leading 0 bs) (strip_zeros bs) ≡ bs
unfolding pad_zeros leading
pad_zeros-strip_zeros [] = refl
pad_zeros-strip_zeros (zero ∷ bs) = ap (λ r. 0 ∷ r) (pad_zeros-strip_zeros bs)
pad_zeros-strip_zeros (suc b ∷ bs) =
    ap
      (λ t.
        pad_zeros (if t then suc (leading 0 bs) else 0) (if t then strip_zeros bs else suc b ∷ bs))
      (positive b)

-- For every list of bytes, zeros in front included, b58encode gives a text that b58decode takes,
-- and that it decodes to the same bytes.
pub b58decode-b58encode : (bs : List ℕ) → AreDigits 256 bs → b58decode (b58encode bs) ≡ ok bs
unfolding b58decode b58encode
b58decode-b58encode bs small =
    let n = value_from 256 0 bs in
    let ds = digits 58 n in
    ap (λ r. r >>= λ n. ok (pad_zeros (leading 49 (codes (b58encode bs))) (digits 256 n)))
      (read_digits-pad_ones (leading 0 bs) (text_of ds)
        ∙ read_digits-text_of 0 ds (digits-AreDigits 58 (omega arith) n)
        ∙ ap ok (value_from-digits 58 (omega arith) n))
    ∙ ap (λ k. ok (pad_zeros k (digits 256 n)))
        (leading-pad_ones (leading 0 bs) (text_of ds)
          ∙ ap (λ k. leading 0 bs + k)
              (leading-text_of ds (digits-AreDigits 58 (omega arith) n)
                (strip_zeros-digits 58 (omega arith) n))
          ∙ omega arith)
    ∙ ap (λ ds. ok (pad_zeros (leading 0 bs) ds)) (digits-value_from 256 (omega arith) bs small)
    ∙ ap ok (pad_zeros-strip_zeros bs)

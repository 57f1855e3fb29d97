-- ===== src/Credentials/Base58.antt =====
-- `b58encode` and `b58decode` of credentials.py.
use Prim.Native.Char.{Char, code}
use olivechain.Base.{
  ℕ, zero, suc, ◌+◌, ◌*◌, String, true, false, Option, none, some, List, [], ◌∷◌, ◌++◌, eqb,
  if◌then◌else◌,
}
use olivechain.Json.Dump.{codes}
use olivechain.Result.{Result, ok, value_error, or_raise, ◌>>=◌}
use olivechain.Credentials.Digits.{digits, value_from}
pub mod Round

-- `_B58`
abbrev pub b58_alphabet : String
b58_alphabet = "123456789ABCDEFGHJKLMNPQRSTUVWXYZabcdefghijkmnopqrstuvwxyz"

-- `text[i]`, for an index that there is
unfoldable pub char_at : String → ℕ → Char
char_at String.[] i = "1"
char_at (String.◌∷◌ c s) zero = c
char_at (String.◌∷◌ c s) (suc i) = char_at s i

-- `text.index(ch)`
unfoldable pub index : ℕ → List ℕ → Option ℕ
index c [] = none
index c (d ∷ ds) = elim (eqb d c) [
  | true ↦ some 0
  | false ↦ elim (index c ds) [ none ↦ none | some i ↦ some (suc i) ]
]

-- `len(b) - len(b.lstrip(b"\x00"))`, and the same of a text and "1"
unfoldable pub leading : ℕ → List ℕ → ℕ
leading c [] = 0
leading c (d ∷ ds) = let rest = suc (leading c ds) in if eqb d c then rest else 0

-- `"1" * n + text`
unfoldable pub pad_ones : ℕ → String → String
pad_ones zero s = s
pad_ones (suc n) s = String.◌∷◌ "1" (pad_ones n s)

unfoldable pub pad_zeros : ℕ → List ℕ → List ℕ
pad_zeros zero bs = bs
pad_zeros (suc n) bs = 0 ∷ pad_zeros n bs

unfoldable pub text_of : List ℕ → String
unfolding char_at
text_of [] = String.[]
text_of (d ∷ ds) = String.◌∷◌ (char_at b58_alphabet d) (text_of ds)

unfoldable pub b58encode : List ℕ → String
unfolding digits value_from leading pad_ones text_of
b58encode b = pad_ones (leading 0 b) (text_of (digits 58 (value_from 256 0 b)))

-- The loop of `b58decode`.
unfoldable pub read_digits : ℕ → String → Result ℕ
unfolding index
read_digits n String.[] = ok n
read_digits n (String.◌∷◌ c s) =
    or_raise (index (code c) (codes b58_alphabet)) (value_error "substring not found" []) >>= λ d.
    read_digits (n * 58 + d) s

-- Of `to_bytes` with as many bytes as the number has, and none for 0.
unfoldable pub b58decode : String → Result (List ℕ)
unfolding read_digits digits leading pad_zeros
b58decode s = read_digits 0 s >>= λ n. ok (pad_zeros (leading 49 (codes s)) (digits 256 n))

-- ===== src/Json/Dump.antt =====
-- `canonical_json` of crypto.py: json.dumps(obj, sort_keys=True, separators=(",", ":")), encoded.
use olivechain.Base.{
  ℕ, zero, suc, ◌+◌, ◌-◌, ◌/◌, ◌%◌, String, true, false, List, [], ◌∷◌, ◌++◌, ltb, leb, eqb,
  if◌then◌else◌, ◌&&◌,
}
pub use olivechain.Base.Texts.{codes}
use olivechain.Base.Int.{ℤ, pos, negsuc}
use olivechain.Base.Sort.{sort_by}
use olivechain.Json.{
  Value, Items, Fields, Floats, null, boolean, int, float, str, arr, obj, nil, cons, end, field,
}

-- `text.encode("utf-8")`, by code point
utf8 : ℕ → List ℕ
utf8 c =
    if ltb c 0x80
    then c ∷ []
    else if ltb c 0x800
    then (0xc0 + c / 64) ∷ (0x80 + c % 64) ∷ []
    else if ltb c 0x10000
    then (0xe0 + c / 4096) ∷ (0x80 + c / 64 % 64) ∷ (0x80 + c % 64) ∷ []
    else (0xf0 + c / 262144) ∷ (0x80 + c / 4096 % 64) ∷ (0x80 + c / 64 % 64) ∷ (0x80 + c % 64) ∷ []

utf8_all : List ℕ → List ℕ
unfolding utf8
utf8_all [] = []
utf8_all (c ∷ cs) = utf8 c ++ utf8_all cs

unfoldable pub encode : String → List ℕ
unfolding utf8_all
encode s = utf8_all (codes s)

hex_digit : ℕ → ℕ
hex_digit d = if ltb d 10 then b'0' + d else b'a' + (d - 10)

-- `\uXXXX`
unicode_escape : ℕ → List ℕ
unfolding hex_digit
unicode_escape c =
    92
    ∷ b'u'
    ∷ hex_digit (c / 4096 % 16)
    ∷ hex_digit (c / 256 % 16)
    ∷ hex_digit (c / 16 % 16)
    ∷ hex_digit (c % 16)
    ∷ []

-- One character between the quotes, with `ensure_ascii`: what is no printable ASCII is escaped,
-- beyond the basic plane as a surrogate pair.
escape : ℕ → List ℕ
unfolding unicode_escape
escape c =
    if eqb c b'"'
    then 92 ∷ b'"' ∷ []
    else if eqb c 92
    then 92 ∷ 92 ∷ []
    else if eqb c 10
    then 92 ∷ b'n' ∷ []
    else if eqb c 13
    then 92 ∷ b'r' ∷ []
    else if eqb c 9
    then 92 ∷ b't' ∷ []
    else if eqb c 12
    then 92 ∷ b'f' ∷ []
    else if eqb c 8
    then 92 ∷ b'b' ∷ []
    else if leb 32 c && leb c 126
    then c ∷ []
    else if ltb c 0x10000
    then unicode_escape c
    else unicode_escape (0xd800 + (c - 0x10000) / 1024)
      ++ unicode_escape (0xdc00 + (c - 0x10000) % 1024)

escape_all : List ℕ → List ℕ
unfolding escape
escape_all [] = []
escape_all (c ∷ cs) = escape c ++ escape_all cs

dump_string : String → List ℕ
unfolding escape_all
dump_string s = b'"' ∷ (escape_all (codes s) ++ b'"' ∷ [])

-- Decimal digits, on fuel: `n` rounds are enough for `n`.
decimal_from : ℕ → ℕ → List ℕ → List ℕ
decimal_from zero n acc = acc
decimal_from (suc f) n acc =
    let digits = (b'0' + n % 10) ∷ acc in
    let rest = decimal_from f (n / 10) digits in if ltb n 10 then digits else rest

unfoldable pub decimal : ℕ → List ℕ
unfolding decimal_from
decimal n = decimal_from (suc n) n []

dump_int : ℤ → List ℕ
unfolding decimal
dump_int (pos n) = decimal n
dump_int (negsuc n) = b'-' ∷ decimal (suc n)

join : List (List ℕ) → List ℕ
join [] = []
join (x ∷ []) = x
join (x ∷ y ∷ r) = x ++ (b',' ∷ join (y ∷ r))

-- `sort_keys=True`: by the code points of the keys.
abbrev key_of : String × List ℕ → String
key_of e = e.0

-- With `ensure_ascii=False`: characters beyond ASCII stay, and are encoded.
escape_plain : ℕ → List ℕ
unfolding unicode_escape utf8
escape_plain c =
    if eqb c b'"'
    then 92 ∷ b'"' ∷ []
    else if eqb c 92
    then 92 ∷ 92 ∷ []
    else if eqb c 10
    then 92 ∷ b'n' ∷ []
    else if eqb c 13
    then 92 ∷ b'r' ∷ []
    else if eqb c 9
    then 92 ∷ b't' ∷ []
    else if eqb c 12
    then 92 ∷ b'f' ∷ []
    else if eqb c 8
    then 92 ∷ b'b' ∷ []
    else if ltb c 32
    then unicode_escape c
    else utf8 c

escape_all_plain : List ℕ → List ℕ
unfolding escape_plain
escape_all_plain [] = []
escape_all_plain (c ∷ cs) = escape_plain c ++ escape_all_plain cs

dump_string_plain : String → List ℕ
unfolding escape_all_plain
dump_string_plain s = b'"' ∷ (escape_all_plain (codes s) ++ b'"' ∷ [])

module _ (quote : String → List ℕ) (F : Floats) where
  dump_entries : List (String × List ℕ) → List (List ℕ)
  dump_entries [] = []
  dump_entries ((k, v) ∷ r) = (quote k ++ (b':' ∷ v)) ∷ dump_entries r

  mutual
    unfolding dump_int join sort_by dump_entries

    dump : Value → List ℕ
    dump null = b'n' ∷ b'u' ∷ b'l' ∷ b'l' ∷ []
    dump (boolean true) = b't' ∷ b'r' ∷ b'u' ∷ b'e' ∷ []
    dump (boolean false) = b'f' ∷ b'a' ∷ b'l' ∷ b's' ∷ b'e' ∷ []
    dump (int n) = dump_int n
    dump (float x) = F.repr x
    dump (str s) = quote s
    dump (arr vs) = b'[' ∷ (join (dump_items vs) ++ b']' ∷ [])
    dump (obj fs) = b'{' ∷ (join (dump_entries (sort_by key_of (dump_fields fs))) ++ b'}' ∷ [])

    dump_items : Items → List (List ℕ)
    dump_items nil = []
    dump_items (cons v vs) = dump v ∷ dump_items vs

    dump_fields : Fields → List (String × List ℕ)
    dump_fields end = []
    dump_fields (field k v fs) = (k, dump v) ∷ dump_fields fs

unfoldable pub canonical_json : Floats → Value → List ℕ
unfolding dump dump_string
canonical_json F v = dump dump_string F v

-- `json.dumps(obj, sort_keys=True, ensure_ascii=False, separators=(",", ":")).encode("utf-8")`
unfoldable pub plain_json : Floats → Value → List ℕ
unfolding dump dump_string_plain
plain_json F v = dump dump_string_plain F v

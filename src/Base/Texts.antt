-- ===== src/Base/Texts.antt =====
-- Texts that are cut at a character or behind a prefix.
use Prim.Native.Char.{code}
use Prim.Native.Nat.{ℕ}
use Prim.Native.String.{String, ◌++◌ as ◌<>◌}
use mathlib.Core.Path.{◌≡◌, ap, ◌∙◌}
use mathlib.Core.Bool.{Bool, true, false, not}
use mathlib.Core.List.{List, [], ◌∷◌}
use text.Mathlib.Text.{◌==◌}
use native.Mathlib.Omega.{arith}
use text.Mathlib.TextLemmas.{nil-append, cons-append}
use olivechain.Base.Lists.{all}
use mathlib.Core.Option.{Option, none, some}
use olivechain.Base.Tests.{eqb, if◌then◌else◌}

-- Truth of a text that may be None.
abbrev pub truthy_text : Option String → Bool
truthy_text none = false
truthy_text (some s) = not (s == "")

-- `text.split(separator, 1)`, where the text holds the separator
unfoldable pub split_at : ℕ → String → Option (String × String)
split_at separator String.[] = none
split_at separator (String.◌∷◌ c s) =
    if eqb (code c) separator then some ("", s) else (elim (split_at separator s) [
      | none ↦ none
      | some (before, behind) ↦ some (String.◌∷◌ c before, behind)
    ])

-- `text[len(prefix):]`, where `text.startswith(prefix)`
unfoldable pub strip_prefix : String → String → Option String
strip_prefix String.[] s = some s
strip_prefix (String.◌∷◌ c p) String.[] = none
strip_prefix (String.◌∷◌ c p) (String.◌∷◌ d s) =
    let rest = strip_prefix p s in if eqb (code c) (code d) then rest else none

abbrev pub codes : String → List ℕ
codes String.[] = []
codes (String.◌∷◌ c s) = code c ∷ codes s

-- No character of the text is this one.
abbrev pub lacks : ℕ → String → Bool
lacks c s = all (λ d. not (eqb d c)) (codes s)

pub lacks-append :
    (c : ℕ) (s t : String) → lacks c s ≡ true → lacks c t ≡ true → lacks c (s <> t) ≡ true
lacks-append c String.[] t h k = ap (lacks c) (nil-append t) ∙ k
lacks-append c (String.◌∷◌ d s) t h k =
    ap (lacks c) (cons-append d s t) ∙ ground (arith, lacks-append c s t)

-- A text without the separator is cut where the text behind it is.
pub split_at-append :
    (c : ℕ) (s t u : String)
    → lacks c s ≡ true
    → split_at c t ≡ some ("", u)
    → split_at c (s <> t) ≡ some (s, u)
unfolding split_at
split_at-append c String.[] t u h k = ap (split_at c) (nil-append t) ∙ k
split_at-append c (String.◌∷◌ d s) t u h k =
    ap (split_at c) (cons-append d s t) ∙ ground (arith, split_at-append c s t u)

pub strip_prefix-append : (p s : String) → strip_prefix p (p <> s) ≡ some s
unfolding strip_prefix
strip_prefix-append String.[] s = ap (strip_prefix "") (nil-append s)
strip_prefix-append (String.◌∷◌ c p) s =
    ap (strip_prefix (String.◌∷◌ c p)) (cons-append c p s) ∙ ground (arith, strip_prefix-append p s)

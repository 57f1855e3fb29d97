-- ===== src/Portal/NewUser/Bounds.antt =====
-- What a new user has to be.
use olivechain.Base.{
  ℕ, ◌≤◌, String, Bool, true, false, ◌||◌, ◌≡◌, ◌≢◌, refl, sym, ◌∙◌, ap, ◌==◌, eq_refl, length, ltb,
  arith,
}
use olivechain.Json.Dump.{codes}
use olivechain.Result.{ok, raise_if, bind-ok, ok-injective}
use olivechain.Portal.Identity.{
  PortalLibrary, PortalIdentity, fail, validate_identity, validate_password, normalize_username,
}
use olivechain.Portal.NewUser.{NewUser, admit}

-- A text that is there, and has so many characters at most.
abbrev pub IsText : ℕ → String → Type 0
IsText most t = (t ≢ "") × (length (codes t) ≤ most)

raise_if-passed : (b : Bool) (t : String) → raise_if b (fail t) ≡ ok tt → b ≡ false
raise_if-passed true t h = cc
raise_if-passed false t h = refl

or_passed : (a b : Bool) → a || b ≡ false → (a ≡ false) × (b ≡ false)
or_passed true b h = cc
or_passed false b h = (refl, h)

in_bounds : (t : String) (most : ℕ) → t == "" || ltb most (length (codes t)) ≡ false → IsText most t
in_bounds t most h =
    let (there, short) = or_passed (t == "") _ h in
    (λ empty. cc (sym there ∙ ap (λ s. s == "") empty ∙ eq_refl ""), ground arith)

password_bounds :
    (password : String)
    → validate_password password ≡ ok tt
    → (10 ≤ length (codes password)) × (length (codes password) ≤ 256)
unfolding validate_password
password_bounds password h =
    let (_, long, h') =
      bind-ok
        (raise_if (ltb (length (codes password)) 10)
          (fail "password must contain at least 10 characters"))
        _ tt h in
    let enough = raise_if-passed _ "password must contain at least 10 characters" long in
    let short = raise_if-passed _ "password is too long" h' in (ground arith, ground arith)

-- What `add_user` asks of its arguments.
pub record IsAdmissible (L : PortalLibrary) (u : NewUser) (name : String) (spec : PortalIdentity)
    : Type 0 where
  pub named : normalize_username L u.username ≡ ok name
  pub placed : validate_identity u.org_id u.role ≡ ok spec
  pub long : 10 ≤ length (codes u.password)
  pub short : length (codes u.password) ≤ 256
  pub shown : IsText 120 (L.strip u.display_name)
  pub aliased : IsText 160 u.identity_alias

pub admit-IsAdmissible :
    (L : PortalLibrary) (u : NewUser) (p : String × PortalIdentity × String)
    → admit L u ≡ ok p
    → IsAdmissible L u p.0 p.1 × (p.2 ≡ L.strip u.display_name)
unfolding admit
admit-IsAdmissible L u p h =
    let (name, named, h₁) = bind-ok (normalize_username L u.username) _ p h in
    let (spec, placed, h₂) = bind-ok (validate_identity u.org_id u.role) _ p h₁ in
    let (_, valid, h₃) = bind-ok (validate_password u.password) _ p h₂ in
    let (_, shown, h₄) =
      bind-ok
        (raise_if
          (L.strip u.display_name == "" || ltb 120 (length (codes (L.strip u.display_name))))
          (fail "display_name is required (max 120 characters)"))
        _ p h₃ in
    let (_, aliased, h₅) =
      bind-ok
        (raise_if (u.identity_alias == "" || ltb 160 (length (codes u.identity_alias)))
          (fail "identity_alias is required"))
        _ p h₄ in
    let same : (name, spec, L.strip u.display_name) ≡ p = ok-injective h₅ in
    let (long, short) = password_bounds u.password valid in
    (
      record {
        named = named ∙ ap (λ p. ok p.0) same;
        placed = placed ∙ ap (λ p. ok p.1) same;
        long = long;
        short = short;
        shown = in_bounds (L.strip u.display_name) 120 (raise_if-passed _ _ shown);
        aliased = in_bounds u.identity_alias 160 (raise_if-passed _ _ aliased);
      },
      sym (ap (λ p. p.2) same),
    )

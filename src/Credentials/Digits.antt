-- ===== src/Credentials/Digits.antt =====
-- Numbers in a base, most significant digit first: `int.from_bytes`, `to_bytes` and the loops of
-- credentials.py.
use native.Mathlib.Nat.{
  mod-lt, mod-eq_of_lt, div-eq_of_lt, div-add-mod', div-lt_self, mul-add-div_right,
  mul-add-mod_self_right,
}
use olivechain.Base.{
  ℕ, zero, suc, ◌+◌, ◌*◌, ◌/◌, ◌%◌, ◌<◌, false, Bool-cases, List, [], ◌∷◌, ◌++◌, All, ◌≡◌, refl,
  sym, ◌∙◌, ap, inl, inr, eqb, if◌then◌else◌, arith,
}
use olivechain.Base.Filter.{append_nil, if-elim}

-- `n = n * b + d` for every digit
unfoldable pub value_from : ℕ → ℕ → List ℕ → ℕ
value_from b n [] = n
value_from b n (d ∷ ds) = value_from b (n * b + d) ds

-- `while n > 0: n, r = divmod(n, b)`, each remainder before those there are; on fuel, of which
-- more than `n` is enough.
unfoldable pub digits_from : ℕ → ℕ → ℕ → List ℕ → List ℕ
digits_from b zero n acc = acc
digits_from b (suc fuel) n acc =
    let rest = digits_from b fuel (n / b) ((n % b) ∷ acc) in if eqb n 0 then acc else rest

unfoldable pub digits : ℕ → ℕ → List ℕ
digits b n = digits_from b (suc n) n []

abbrev pub strip_zeros : List ℕ → List ℕ
strip_zeros [] = []
strip_zeros (d ∷ ds) = if eqb d 0 then strip_zeros ds else d ∷ ds

abbrev pub AreDigits : ℕ → List ℕ → Type 0
AreDigits b = All (λ d. d < b)

module _ (b : ℕ) (two : 1 < b) where
  digits_from_zero : (fuel : ℕ) (acc : List ℕ) → digits_from b fuel 0 acc ≡ acc
  unfolding digits_from
  digits_from_zero zero acc = refl
  digits_from_zero (suc fuel) acc = refl

  nonzero : (n : ℕ) → 0 < n → eqb n 0 ≡ false
  nonzero n h = ground arith

  digits_from_step :
      (fuel n : ℕ) (acc : List ℕ)
      → 0 < n
      → digits_from b (suc fuel) n acc ≡ digits_from b fuel (n / b) ((n % b) ∷ acc)
  unfolding digits_from
  digits_from_step fuel n acc h =
      ap (λ t. if t then acc else digits_from b fuel (n / b) ((n % b) ∷ acc)) (nonzero n h)

  -- More fuel than `n` changes nothing.
  digits_from_fuel :
      (f g n : ℕ) (acc : List ℕ) → n < f → n < g → digits_from b f n acc ≡ digits_from b g n acc
  digits_from_fuel zero g n acc h k = absurd (omega arith)
  digits_from_fuel (suc f) zero n acc h k = absurd (omega arith)
  digits_from_fuel (suc f) (suc g) zero acc h k =
      digits_from_zero (suc f) acc ∙ sym (digits_from_zero (suc g) acc)
  digits_from_fuel (suc f) (suc g) (suc n) acc h k =
      let smaller : suc n / b < suc n = div-lt_self (omega arith) two in
      digits_from_step f (suc n) acc (omega arith)
      ∙ digits_from_fuel f g (suc n / b) ((suc n % b) ∷ acc) (omega arith) (omega arith)
      ∙ sym (digits_from_step g (suc n) acc (omega arith))

  -- The digits of a number have its value.
  value_from-digits_from :
      (f n : ℕ) (acc : List ℕ) → n < f → value_from b 0 (digits_from b f n acc) ≡ value_from b n acc
  unfolding value_from
  value_from-digits_from zero n acc h = absurd (omega arith)
  value_from-digits_from (suc f) zero acc h = ap (value_from b 0) (digits_from_zero (suc f) acc)
  value_from-digits_from (suc f) (suc n) acc h =
      let smaller : suc n / b < suc n = div-lt_self (omega arith) two in
      ap (value_from b 0) (digits_from_step f (suc n) acc (omega arith))
      ∙ value_from-digits_from f (suc n / b) ((suc n % b) ∷ acc) (omega arith)
      ∙ ap (λ m. value_from b m acc) (div-add-mod' (suc n) b)

  pub value_from-digits : (n : ℕ) → value_from b 0 (digits b n) ≡ n
  unfolding value_from digits
  value_from-digits n = value_from-digits_from (suc n) n [] (omega arith)

  digits_from-AreDigits :
      (f n : ℕ) (acc : List ℕ) → AreDigits b acc → AreDigits b (digits_from b f n acc)
  unfolding digits_from
  digits_from-AreDigits zero n acc h = h
  digits_from-AreDigits (suc f) n acc h =
      if-elim (AreDigits b) (eqb n 0) acc (digits_from b f (n / b) ((n % b) ∷ acc)) (λ done. h)
        λ more. digits_from-AreDigits f (n / b) ((n % b) ∷ acc) (mod-lt n (omega arith), h)

  pub digits-AreDigits : (n : ℕ) → AreDigits b (digits b n)
  unfolding digits
  digits-AreDigits n = digits_from-AreDigits (suc n) n [] tt

  div_shifted : (a d : ℕ) → d < b → (a * b + d) / b ≡ a
  div_shifted a d h =
      mul-add-div_right (omega arith) a d ∙ ap (λ q. a + q) (div-eq_of_lt h) ∙ omega arith

  mod_shifted : (a d : ℕ) → d < b → (a * b + d) % b ≡ d
  mod_shifted a d h = mul-add-mod_self_right a b d ∙ mod-eq_of_lt h

  grows : (a d : ℕ) → 0 < a → a < a * b + d
  grows a d h = grind arith

  -- The digits of a value behind a positive number are those of the number, and the given ones.
  digits_from-value_from :
      (f a : ℕ) (ds acc : List ℕ)
      → AreDigits b ds
      → 0 < a
      → value_from b a ds < f
      → digits_from b f (value_from b a ds) acc ≡ digits_from b (suc a) a (ds ++ acc)
  unfolding value_from
  digits_from-value_from f a [] acc small pos h = digits_from_fuel f (suc a) a acc h (omega arith)
  digits_from-value_from f a (d ∷ ds) acc (low, small) pos h =
      let m = a * b + d in
      digits_from-value_from f m ds acc small (omega (arith, grows a d pos)) h
      ∙ digits_from_step m m (ds ++ acc) (omega (arith, grows a d pos))
      ∙ ap (λ q. digits_from b m q ((m % b) ∷ (ds ++ acc))) (div_shifted a d low)
      ∙ ap (λ r. digits_from b m a (r ∷ (ds ++ acc))) (mod_shifted a d low)
      ∙ digits_from_fuel m (suc a) a (d ∷ (ds ++ acc)) (grows a d pos) (omega arith)

  -- Reading digits and printing the value drops the zeros in front, and no more.
  pub digits-value_from :
      (ds : List ℕ) → AreDigits b ds → digits b (value_from b 0 ds) ≡ strip_zeros ds
  unfolding digits value_from
  digits-value_from [] small = digits_from_zero 1 []
  digits-value_from (d ∷ ds) (low, small) = elim (Bool-cases (eqb d 0)) [
    | inl zero_in_front ↦
        let is : d ≡ 0 = ground arith in
        ap (λ n. digits b (value_from b n ds)) (omega (arith, is))
        ∙ digits-value_from ds small
        ∙ ap (λ t. if t then strip_zeros ds else d ∷ ds) (sym zero_in_front)
    | inr first ↦
        let pos : 0 < d = ground arith in
        ap (λ n. digits b (value_from b n ds)) (omega arith)
        ∙ digits_from-value_from (suc (value_from b d ds)) d ds [] small pos (omega arith)
        ∙ digits_from_step d d (ds ++ []) pos
        ∙ ap (λ q. digits_from b d q ((d % b) ∷ (ds ++ []))) (div-eq_of_lt low)
        ∙ digits_from_zero d ((d % b) ∷ (ds ++ []))
        ∙ ap (λ r. r ∷ (ds ++ [])) (mod-eq_of_lt low)
        ∙ ap (λ r. d ∷ r) (append_nil ds)
        ∙ ap (λ t. if t then strip_zeros ds else d ∷ ds) (sym first)
  ]

  -- There is no zero in front of the digits of a number.
  pub strip_zeros-digits : (n : ℕ) → strip_zeros (digits b n) ≡ digits b n
  strip_zeros-digits n =
      sym (digits-value_from (digits b n) (digits-AreDigits n))
      ∙ ap (digits b) (value_from-digits n)

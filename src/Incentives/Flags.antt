-- ===== src/Incentives/Flags.antt =====
-- The review flags that keep an event from a reward, described by the events of the ledger alone.
use mathlib.Core.Path.{subst}
use olivechain.Base.{
  ℕ, suc, String, Bool, true, false, not, Option, none, some, Option-cases, List, [], ◌∷◌, ◌++◌,
  map, lookup, any, filter, get_elem?, ◌≡◌, refl, sym, ap, ◌∙◌, arith, if◌then◌else◌, inl, inr,
  Bool-cases, eq_iff, eq_refl, ◌==◌,
}
use olivechain.Json.{Value, Floats, null, boolean, int, float, str, obj, arr}
use olivechain.Json.Access.{item, get_or, hashable, is_text, same_key, number, put_key}
use olivechain.Event.{Event}
use olivechain.Models.{EventType}
use olivechain.Ledger.{Ledger}
use olivechain.Ledger.Queries.{iter_type}
use olivechain.Result.{Result, ok, ok-injective, bind-ok, map_result, fold_result, ◌>>=◌}
use olivechain.Incentives.{flagged, resolved, open_flags}

-- The payload of the flag names the event.
abbrev pub names : String → Event → Bool
names id f = is_text id (get_or null "subject_event" f.payload)

-- If a review flag names the event, then the last one that does has a review resolution.
abbrev pub IsResolved : Ledger → String → Type 0
IsResolved l id =
    (before after : List Event) (f : Event)
    → iter_type l EventType.review_flag ≡ before ++ f ∷ after
    → names id f ≡ true
    → any (names id) after ≡ false
    → (r : Event) × (i : ℕ) × (get_elem? (iter_type l EventType.review_resolution) i ≡ some r)
      × (lookup "flag_event" r.payload ≡ some (str f.event_id))

is_text-str : (s : String) (v : Value) → is_text s v ≡ true → v ≡ str s
is_text-str s (str t) h = ap str ((eq_iff t s).0 h)
is_text-str s null h = absurd (cc h)
is_text-str s (boolean b) h = absurd (cc h)
is_text-str s (int n) h = absurd (cc h)
is_text-str s (float x) h = absurd (cc h)
is_text-str s (obj fs) h = absurd (cc h)
is_text-str s (arr vs) h = absurd (cc h)

hashable-same : (v k : Value) → hashable v ≡ ok k → v ≡ k
hashable-same (str t) k h = ok-injective h
hashable-same null k h = ok-injective h
hashable-same (boolean b) k h = ok-injective h
hashable-same (int n) k h = ok-injective h
hashable-same (float x) k h = ok-injective h
hashable-same (obj fs) k h = absurd (cc h)
hashable-same (arr vs) k h = absurd (cc h)

-- The key that an event's payload has under a name.
key_of : String → Event → Result Value
key_of name e = item name e.payload >>= hashable

key_of-lookup :
    (name : String) (e : Event) (k : Value) → key_of name e ≡ ok k → lookup name e.payload ≡ some k
unfolding key_of
key_of-lookup name e k h = elim (Option-cases (lookup name e.payload)) [
  | inl missing ↦ absurd (ground (arith, missing))
  | inr (v, found) ↦
      let is : hashable v ≡ ok k = ground (arith, found) in found ∙ ap some (hashable-same v k is)
]

module _ (F : Floats) where
  same_key-is_text : (s : String) (j k : Value) → same_key F j k ≡ true → is_text s j ≡ is_text s k
  unfolding same_key number
  same_key-is_text s (str t) (str u) h = ap (λ t. t == s) ((eq_iff t u).0 h)
  same_key-is_text s (str t) w h = ground arith
  same_key-is_text s v (str u) h = ground arith
  same_key-is_text s v w h = refl

  same_key-texts :
      (s : String) (j k : Value) → is_text s j ≡ true → is_text s k ≡ true → same_key F j k ≡ true
  unfolding same_key
  same_key-texts s j k hj hk =
      subst (λ v. same_key F v k ≡ true) (sym (is_text-str s j hj))
        (subst (λ v. same_key F (str s) v ≡ true) (sym (is_text-str s k hk)) (eq_refl s))

  -- The first value that stands under the text.
  text_find : String → List (Value × String) → Option String
  text_find s [] = none
  text_find s ((k, v) ∷ d) = if is_text s k then some v else text_find s d

  text_find-put_key :
      (s : String) (k : Value) (v : String) (d : List (Value × String))
      → text_find s (put_key F k v d) ≡ (if is_text s k then some v else text_find s d)
  unfolding text_find put_key
  text_find-put_key s k v [] = refl
  text_find-put_key s k v ((j, w) ∷ d) =
      ground (arith, same_key-is_text s j k, same_key-texts s j k, text_find-put_key s k v d)

  -- One round of the loop over the flags.
  put_flag : List (Value × String) → Event → Result (List (Value × String))
  put_flag d f = key_of "subject_event" f >>= λ k. ok (put_key F k f.event_id d)

  put_flag-text_find :
      (id : String) (d : List (Value × String)) (f : Event) (d' : List (Value × String))
      → put_flag d f ≡ ok d'
      → text_find id d' ≡ (if names id f then some f.event_id else text_find id d)
  unfolding put_flag
  put_flag-text_find id d f d' h =
      let (k, found, h₁) = bind-ok (key_of "subject_event" f) _ d' h in
      let named : is_text id k ≡ names id f =
        ap (λ o. is_text id (elim o [ none ↦ null | some v ↦ v ]))
          (sym (key_of-lookup "subject_event" f k found)) in
      ap (text_find id) (sym (ok-injective h₁))
      ∙ text_find-put_key id k f.event_id d
      ∙ ap (λ b. if b then some f.event_id else text_find id d) named

  -- Flags that do not name an event leave what stands under it as it is.
  unnamed-text_find :
      (id : String) (fs : List Event) (d d' : List (Value × String))
      → fold_result put_flag d fs ≡ ok d'
      → any (names id) fs ≡ false
      → text_find id d' ≡ text_find id d
  unnamed-text_find id [] d d' h unnamed = ap (text_find id) (sym (ok-injective h))
  unnamed-text_find id (f ∷ fs) d d' h unnamed =
      let (d₁, put, h₁) = bind-ok (put_flag d f) _ d' h in
      let not_here : names id f ≡ false = ground arith in
      unnamed-text_find id fs d₁ d' h₁ (ground arith)
      ∙ put_flag-text_find id d f d₁ put
      ∙ ap (λ b. if b then some f.event_id else text_find id d) not_here

  -- The last flag that names an event is what stands under it.
  last-text_find :
      (id : String) (before after : List Event) (f : Event) (d d' : List (Value × String))
      → fold_result put_flag d (before ++ f ∷ after) ≡ ok d'
      → names id f ≡ true
      → any (names id) after ≡ false
      → text_find id d' ≡ some f.event_id
  last-text_find id [] after f d d' h named unnamed =
      let (d₁, put, h₁) = bind-ok (put_flag d f) _ d' h in
      unnamed-text_find id after d₁ d' h₁ unnamed
      ∙ put_flag-text_find id d f d₁ put
      ∙ ap (λ b. if b then some f.event_id else text_find id d) named
  last-text_find id (g ∷ before) after f d d' h named unnamed =
      let (d₁, put, h₁) = bind-ok (put_flag d g) _ d' h in
      last-text_find id before after f d₁ d' h₁ named unnamed

  -- What stands under a text that is not among the open flags has been resolved.
  closed-resolved :
      (id flag : String) (done : List Value) (d : List (Value × String))
      → text_find id d ≡ some flag
      → any (is_text id) (map (λ f. f.0) (filter (λ f. not (any (is_text f.1) done)) d)) ≡ false
      → any (is_text flag) done ≡ true
  unfolding text_find
  closed-resolved id flag done [] h closed = absurd (cc h)
  closed-resolved id flag done ((k, v) ∷ d) h closed = elim (Bool-cases (is_text id k)) [
    | inl here ↦
        let same : v ≡ flag = ground arith in
        subst (λ flag. any (is_text flag) done ≡ true) same (ground arith)
    | inr there ↦ closed-resolved id flag done d (ground arith) (ground arith)
  ]

  resolution :
      (flag : String) (rs : List Event) (done : List Value)
      → map_result (key_of "flag_event") rs ≡ ok done
      → any (is_text flag) done ≡ true
      → (r : Event) × (i : ℕ) × (get_elem? rs i ≡ some r)
        × (lookup "flag_event" r.payload ≡ some (str flag))
  resolution flag [] done h is =
      absurd (cc (subst (λ done. any (is_text flag) done ≡ true) (sym (ok-injective h)) is))
  resolution flag (r ∷ rs) done h is =
      let (k, found, h₁) = bind-ok (key_of "flag_event" r) _ done h in
      let (rest, went_on, h₂) = bind-ok (map_result (key_of "flag_event") rs) _ done h₁ in
      let among : any (is_text flag) (k ∷ rest) ≡ true =
        subst (λ done. any (is_text flag) done ≡ true) (sym (ok-injective h₂)) is in
      elim (Bool-cases (is_text flag k)) [
        | inl here ↦
            (r, 0, refl, key_of-lookup "flag_event" r k found ∙ ap some (is_text-str flag k here))
        | inr there ↦
            let (r', i, at, resolves) = resolution flag rs rest went_on (ground arith) in
            (r', suc i, at, resolves)
      ]

  -- An event that is not among the open flags is under no flag, or its last flag is resolved.
  pub closed-IsResolved :
      (l : Ledger) (id : String) (flags : List Value)
      → open_flags F l ≡ ok flags
      → any (is_text id) flags ≡ false
      → IsResolved l id
  unfolding open_flags flagged resolved put_flag key_of
  closed-IsResolved l id flags h closed before after f split named unnamed =
      let (d, of_flags, h₁) = bind-ok (flagged F l) _ flags h in
      let (done, of_resolutions, h₂) = bind-ok (resolved F l) _ flags h₁ in
      let last : text_find id d ≡ some f.event_id =
        last-text_find id before after f [] d (ap (fold_result put_flag []) (sym split) ∙ of_flags)
          named unnamed in
      resolution f.event_id (iter_type l EventType.review_resolution) done of_resolutions (
        closed-resolved id f.event_id done d last
          (ap (any (is_text id)) (ok-injective h₂) ∙ closed))

-- ===== src/Passport/ByTime.antt =====
-- The order that build_passport shows events in: `sorted(events, key=lambda e: e.timestamp)`.
use mathlib.Core.Path.{subst}
use mathlib.Core.List.{Perm}
use mathlib.Core.List.Perm
use olivechain.Base.{true, false, List, [], ◌∷◌, map, All, ◌≡◌}
use olivechain.Base.Filter.{if-elim}
use olivechain.Json.{Float, Floats}
use olivechain.Event.{Event}
use olivechain.Result.{ok, ok-injective, bind-ok}
use olivechain.Passport.{time_of, insert_timed, by_time}

module _ (F : Floats) where
  -- The number is the time of the event.
  abbrev pub IsTimeOf : Float × Event → Type 0
  IsTimeOf (t, e) = time_of F e ≡ ok t

  -- No event of the list that follows is earlier, as far as the next one.
  abbrev pub Precedes : Float → List (Float × Event) → Type 0
  Precedes t [] = Unit
  Precedes t (x ∷ xs) = F.lt x.0 t ≡ false

  -- The times never go down from one event to the next.
  abbrev pub InOrder : List (Float × Event) → Type 0
  InOrder [] = Unit
  InOrder (x ∷ xs) = Precedes x.0 xs × InOrder xs

  insert_timed-Precedes :
      (t : Float) (e : Float × Event) (xs : List (Float × Event))
      → F.lt e.0 t ≡ false
      → Precedes t xs
      → Precedes t (insert_timed F e xs)
  unfolding insert_timed
  insert_timed-Precedes t e [] h p = h
  insert_timed-Precedes t e (x ∷ xs) h p =
      if-elim (Precedes t) (F.lt x.0 e.0) _ _ (λ later. p) (λ here. h)

  insert_timed-InOrder :
      ((x y : Float) → F.lt x y ≡ true → F.lt y x ≡ false)
      → (e : Float × Event) (xs : List (Float × Event)) → InOrder xs
      → InOrder (insert_timed F e xs)
  unfolding insert_timed
  insert_timed-InOrder asymmetric e [] s = (tt, tt)
  insert_timed-InOrder asymmetric e (x ∷ xs) (p, s) =
      if-elim InOrder (F.lt x.0 e.0) _ _
        (λ later. (
          insert_timed-Precedes x.0 e xs (asymmetric x.0 e.0 later) p,
          insert_timed-InOrder asymmetric e xs s,
        ))
        (λ here. (here, (p, s)))

  insert_timed-All :
      (P : Float × Event → Type 0) (e : Float × Event) (xs : List (Float × Event))
      → P e
      → All P xs
      → All P (insert_timed F e xs)
  unfolding insert_timed
  insert_timed-All P e [] h hs = (h, tt)
  insert_timed-All P e (x ∷ xs) h (hx, hs) =
      if-elim (All P) (F.lt x.0 e.0) _ _ (λ later. (hx, insert_timed-All P e xs h hs))
        (λ here. (h, (hx, hs)))

  abbrev pub events_of : List (Float × Event) → List Event
  events_of = map (λ x. x.1)

  insert_timed-perm :
      (e : Float × Event) (xs : List (Float × Event))
      → Perm (events_of (insert_timed F e xs)) (e.1 ∷ events_of xs)
  unfolding insert_timed
  insert_timed-perm e [] = Perm.rfl
  insert_timed-perm e (x ∷ xs) =
      if-elim (λ ys. Perm (events_of ys) (e.1 ∷ x.1 ∷ events_of xs)) (F.lt x.0 e.0) _ _
        (λ later.
          Perm.trans (Perm.cons x.1 (insert_timed-perm e xs)) (Perm.swap e.1 x.1 (events_of xs)))
        (λ here. Perm.rfl)

  -- What the order holds of the events that it is given.
  pub record IsByTime (es : List Event) (timed : List (Float × Event)) : Type 0 where
    pub times : All IsTimeOf timed
    pub in_order : InOrder timed
    pub same_events : Perm (events_of timed) es

  pub by_time-IsByTime :
      ((x y : Float) → F.lt x y ≡ true → F.lt y x ≡ false)
      → (es : List Event) (timed : List (Float × Event)) → by_time F es ≡ ok timed
      → IsByTime es timed
  unfolding by_time
  by_time-IsByTime asymmetric [] timed h =
      subst (IsByTime []) (ok-injective h)
        (record { times = tt; in_order = tt; same_events = Perm.rfl })
  by_time-IsByTime asymmetric (e ∷ es) timed h =
      let (t, is, h₁) = bind-ok (time_of F e) _ timed h in
      let (rest, sorted, h₂) = bind-ok (by_time F es) _ timed h₁ in
      let of_rest = by_time-IsByTime asymmetric es rest sorted in
      subst (IsByTime (e ∷ es)) (ok-injective h₂) (record {
        times = insert_timed-All IsTimeOf (t, e) rest is of_rest.times;
        in_order = insert_timed-InOrder asymmetric (t, e) rest of_rest.in_order;
        same_events = Perm.trans (insert_timed-perm (t, e) rest) (Perm.cons e of_rest.same_events);
      })

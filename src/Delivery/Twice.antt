-- ===== src/Delivery/Twice.antt =====
-- A fan-out that is called again for its signal does nothing.
use etfpulse.Base.{
  ℕ, ◌≤◌, ◌≡◌, refl, ap, ◌∙◌, sym, subst, ==_refl, Bool, true, false, ◌==◌, Option, none, some,
  List, [], ◌∷◌, arith, find, map, inl, inr, Bool-cases, Option-cases, if◌then◌else◌,
}
use etfpulse.Delivery.Rows.{signal_alerted, Signal, Outbox}
use etfpulse.Delivery.FanOut.{
  is_signal_pending, below, fan_out_to, fan_out_scored, fan_out_found, fan_out_signal,
}

-- A signal that a fan-out leaves alone.
Idle : ℕ → ℕ → Option Signal → Type 0
Idle now m s = (box : Outbox) → fan_out_found now m s box ≡ (0, box)

abbrev then_some : {A : Type 0} → (A → A) → Option A → Option A
then_some f none = none
then_some f (some x) = some (f x)

module _ {A : Type 0} (p : A → Bool) (f : A → A) (same : (x : A) → p (f x) ≡ p x) where
  find-map : (xs : List A) (s : A) → find p xs ≡ some s → find p (map f xs) ≡ some (f s)
  find-map [] s h = ground arith
  find-map (x ∷ xs) s h = elim (Bool-cases (p x)) [
    | inl e ↦
        let g : some x ≡ some s = subst (λ b. (if b then some x else find p xs) ≡ some s) e h in
        rw (same x, e) (ap (then_some f) g)
    | inr e ↦
        let g : find p xs ≡ some s = subst (λ b. (if b then some x else find p xs) ≡ some s) e h in
        rw (same x, e) (find-map xs s g)
  ]

-- The change that a fan-out makes to the signals.
unfoldable alert : ℕ → Signal → Signal
alert id x = if x.id == id then record x { status = signal_alerted } else x

alert-id : (id : ℕ) (x : Signal) → (alert id x).id ≡ x.id
unfolding alert
alert-id id x = elim (Bool-cases (x.id == id)) [ inl e ↦ rw e refl | inr e ↦ rw e refl ]

alert-same : (s : Signal) → is_signal_pending (alert s.id s).status ≡ false
unfolding alert
alert-same s = rw (==_refl s.id) refl

not_pending-Idle :
    (now m : ℕ) (s : Signal) → is_signal_pending s.status ≡ false → Idle now m (some s)
unfolding fan_out_found Idle
not_pending-Idle now m s e box = rw e refl

expired-Idle : (now m : ℕ) (s : Signal) → below s.expires_at now ≡ true → Idle now m (some s)
unfolding fan_out_found Idle
expired-Idle now m s x box = elim (Bool-cases (is_signal_pending s.status)) [
  | inl e ↦ rw (e, x) refl
  | inr e ↦ rw e refl
]

unscored-Idle :
    (now m : ℕ) (s : Signal)
    → ((box : Outbox) → fan_out_scored now m s s.confidence box ≡ (0, box))
    → Idle now m (some s)
unfolding fan_out_found Idle
unscored-Idle now m s h box = elim (Bool-cases (below s.expires_at now)) [
  | inl x ↦ expired-Idle now m s x box
  | inr x ↦ elim (Bool-cases (is_signal_pending s.status)) [
    | inl e ↦ rw (e, x) (h box)
    | inr e ↦ rw e refl
  ]
]

-- Once a signal is alerted, it is found alerted.
fan_out_to-Idle :
    (now later m signal_id : ℕ) (s : Signal) (c : ℕ) (box : Outbox)
    → find (λ x. x.id == signal_id) box.signals ≡ some s
    → let box' = (fan_out_to now s c box).1 in fan_out_signal later m signal_id box' ≡ (0, box')
unfolding fan_out_to fan_out_signal alert Idle
fan_out_to-Idle now later m signal_id s c box e =
    let box' = (fan_out_to now s c box).1 in
    let h : find (λ x. x.id == signal_id) box'.signals ≡ some (alert s.id s) =
      find-map (λ x. x.id == signal_id) (alert s.id)
        (λ x. ap (λ k. k == signal_id) (alert-id s.id x)) box.signals s e in
    ap (λ o. fan_out_found later m o box') h
    ∙ not_pending-Idle later m (alert s.id s) (alert-same s) box'

Idle-twice :
    (now later m signal_id : ℕ) (s : Option Signal) (box : Outbox)
    → find (λ x. x.id == signal_id) box.signals ≡ s
    → Idle now m s
    → Idle later m s
    → let box' = (fan_out_signal now m signal_id box).1 in
      fan_out_signal later m signal_id box' ≡ (0, box')
unfolding fan_out_signal Idle
Idle-twice now later m signal_id s box e i j =
    let h : fan_out_signal now m signal_id box ≡ (0, box) =
      ap (λ o. fan_out_found now m o box) e ∙ i box in
    let k : fan_out_signal later m signal_id box ≡ (0, box) =
      ap (λ o. fan_out_found later m o box) e ∙ j box in
    rw h k

-- A signal that the checks let through.
module _ (now later m signal_id : ℕ) (s : Signal) (box : Outbox)
    (found : find (λ x. x.id == signal_id) box.signals ≡ some s) where
  live-twice :
      (c : ℕ)
      → fan_out_signal now m signal_id box ≡ fan_out_to now s c box
      → let box' = (fan_out_signal now m signal_id box).1 in
        fan_out_signal later m signal_id box' ≡ (0, box')
  live-twice c h = rw h (fan_out_to-Idle now later m signal_id s c box found)

  -- By the confidence and the score.
  scored-twice :
      (c : Option ℕ)
      → c ≡ s.confidence
      → is_signal_pending s.status ≡ true
      → below s.expires_at now ≡ false
      → let box' = (fan_out_signal now m signal_id box).1 in
        fan_out_signal later m signal_id box' ≡ (0, box')
  unfolding fan_out_scored fan_out_signal fan_out_found
  scored-twice none e p x =
      let h : (box : Outbox) → fan_out_scored now m s s.confidence box ≡ (0, box) =
        λ b. rw (sym e) refl in
      let k : (box : Outbox) → fan_out_scored later m s s.confidence box ≡ (0, box) =
        λ b. rw (sym e) refl in
      Idle-twice now later m signal_id (some s) box found (unscored-Idle now m s h)
        (unscored-Idle later m s k)
  scored-twice (some c) e p x = elim (Bool-cases (below s.confirmation_score m)) [
    | inl l ↦
        let h : (box : Outbox) → fan_out_scored now m s s.confidence box ≡ (0, box) =
          λ b. rw (sym e, l) refl in
        let k : (box : Outbox) → fan_out_scored later m s s.confidence box ≡ (0, box) =
          λ b. rw (sym e, l) refl in
        Idle-twice now later m signal_id (some s) box found (unscored-Idle now m s h)
          (unscored-Idle later m s k)
    | inr l ↦ live-twice c (rw (found, p, x, sym e, l) refl)
  ]

below-later :
    (t : Option ℕ) (now later : ℕ) → now ≤ later → below t now ≡ true → below t later ≡ true
below-later none now later le h = h
below-later (some t) now later le h = ground arith

none-Idle : (now m : ℕ) → Idle now m none
unfolding Idle fan_out_found
none-Idle now m box = refl

-- A fan-out that is called again for its signal, not earlier than the first time, inserts nothing
-- and changes nothing.
pub fan_out_signal-twice :
    (now later min_confirmation signal_id : ℕ) (box : Outbox)
    → now ≤ later
    → let box' = (fan_out_signal now min_confirmation signal_id box).1 in
      fan_out_signal later min_confirmation signal_id box' ≡ (0, box')
fan_out_signal-twice now later m signal_id box le =
    elim (Option-cases (find (λ x. x.id == signal_id) box.signals)) [
      | inl e ↦ Idle-twice now later m signal_id none box e (none-Idle now m) (none-Idle later m)
      | inr (s, e) ↦ elim (Bool-cases (is_signal_pending s.status)) [
        | inr p ↦
            Idle-twice now later m signal_id (some s) box e (not_pending-Idle now m s p)
              (not_pending-Idle later m s p)
        | inl p ↦ elim (Bool-cases (below s.expires_at now)) [
          | inl x ↦
              Idle-twice now later m signal_id (some s) box e (expired-Idle now m s x)
                (expired-Idle later m s (below-later s.expires_at now later le x))
          | inr x ↦ scored-twice now later m signal_id s box e s.confidence refl p x
        ]
      ]
    ]

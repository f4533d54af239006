-- ===== src/Delivery/Traced.antt =====
-- The trace and the fan-out apply the same filters.
use etfpulse.Base.{
  ℕ, ◌≡◌, refl, ap, ap₂, ◌∙◌, Bool, true, false, not, ◌&&◌, leb, ◌==◌, Option, none, some, List, [],
  ◌∷◌, ◌++◌, Text, select, length, count_if, arith, inl, inr, Bool-cases, if◌then◌else◌, All,
}
use etfpulse.Delivery.Rows.{
  Signal, Target, to_channel, to_group, SignalDelivery, DeliveryPrefs, Subscriber,
  NotificationChannel, TelegramGroup, Outbox,
}
use etfpulse.Delivery.FanOut.{asset_pref_filter, accepts, channels_of, match_users, match_groups}
use etfpulse.Delivery.Reasons.{Explained, All-append, users-Explained, groups-Explained}
use etfpulse.Delivery.Trace.{
  Recipient, asset_matches, confidence_matches, trace_of, trace_user, trace_group, trace_channels,
  trace_users, trace_groups, delivery_of, delivery_trace, is_user, is_group,
}

-- The recipients that a trace reports as matched.
abbrev pub matched_targets : List Recipient → List Target
matched_targets [] = []
matched_targets (r ∷ rs) =
    let rest = matched_targets rs in if r.matched then r.target ∷ rest else rest

asset_matches-filter :
    (ps : List Text) (asset : Text) → asset_matches ps asset ≡ asset_pref_filter ps asset
unfolding asset_matches asset_pref_filter
asset_matches-filter [] asset = ground arith
asset_matches-filter (p ∷ ps) asset = ground arith

regroup : (a b x m l : Bool) → (a && b && x && m && l) ≡ ((a && b && m && l) && x)
regroup a b x m l = ground arith

trace_of-matched :
    (t : Target) (p : DeliveryPrefs) (active : Bool) (ca : Option Bool) (s : Signal)
    (d : Option SignalDelivery) (c : ℕ)
    → s.confidence ≡ some c
    → (trace_of t p active ca s d).matched ≡ (accepts p s.asset c && active)
unfolding trace_of accepts confidence_matches
trace_of-matched t p active ca s d c e =
    rw (e, asset_matches-filter p.pref_assets s.asset)
      (regroup p.is_active (not p.pref_paused) active (asset_pref_filter p.pref_assets s.asset)
        (leb p.pref_min_confidence c))

matched_targets-append :
    (xs ys : List Recipient) → matched_targets (xs ++ ys) ≡ matched_targets xs ++ matched_targets ys
matched_targets-append [] ys = refl
matched_targets-append (x ∷ xs) ys = elim (Bool-cases (x.matched)) [
  | inl e ↦ rw e (ap (λ l. x.target ∷ l) (matched_targets-append xs ys))
  | inr e ↦ rw e (matched_targets-append xs ys)
]

matched_targets-count :
    (rs : List Recipient) → count_if (λ r. r.matched) rs ≡ length (matched_targets rs)
matched_targets-count [] = refl
matched_targets-count (r ∷ rs) = elim (Bool-cases (r.matched)) [
  | inl e ↦ rw e (omega (arith, matched_targets-count rs))
  | inr e ↦ rw e (omega (arith, matched_targets-count rs))
]

trace_of-target :
    (t : Target) (p : DeliveryPrefs) (active : Bool) (ca : Option Bool) (s : Signal)
    (d : Option SignalDelivery)
    → (trace_of t p active ca s d).target ≡ t
unfolding trace_of
trace_of-target t p active ca s d = refl

picked :
    (mine tele active : Bool) (r : Recipient) (t : Target) (rs : List Recipient) (ts : List Target)
    → r.matched ≡ active
    → r.target ≡ t
    → matched_targets rs ≡ ts
    → matched_targets (if mine && tele then r ∷ rs else rs)
      ≡ (if mine && active && tele then t ∷ ts else ts)
picked true true true r t rs ts h k l = rw h (ap₂ ◌∷◌ k l)
picked true true false r t rs ts h k l = rw h l
picked true false true r t rs ts h k l = l
picked true false false r t rs ts h k l = l
picked false tele active r t rs ts h k l = l

passed_over :
    (b : Bool) (r : Recipient) (rs : List Recipient)
    → r.matched ≡ false
    → matched_targets rs ≡ []
    → matched_targets (if b then r ∷ rs else rs) ≡ []
passed_over true r rs h l = rw h l
passed_over false r rs h l = l

module _ (s : Signal) (c : ℕ) (e : s.confidence ≡ some c) where
  channels-accepted :
      (u : Subscriber) (d : Option SignalDelivery) (cs : List NotificationChannel)
      → accepts u.prefs s.asset c ≡ true
      → matched_targets (trace_channels u s d cs) ≡ channels_of cs u.id
  unfolding trace_channels channels_of trace_user
  channels-accepted u d [] a = refl
  channels-accepted u d (n ∷ ns) a =
      let t = to_channel u.id n.id in
      let m = trace_of-matched t u.prefs n.is_active (some n.is_active) s d c e in
      picked (n.user_id == u.id) n.is_telegram n.is_active _ t _ _
        (m ∙ ap (λ b. b && n.is_active) a)
        (trace_of-target t u.prefs n.is_active (some n.is_active) s d) (channels-accepted u d ns a)

  channels-refused :
      (u : Subscriber) (d : Option SignalDelivery) (cs : List NotificationChannel)
      → accepts u.prefs s.asset c ≡ false
      → matched_targets (trace_channels u s d cs) ≡ []
  unfolding trace_channels trace_user
  channels-refused u d [] a = refl
  channels-refused u d (n ∷ ns) a =
      let t = to_channel u.id n.id in
      let m = trace_of-matched t u.prefs n.is_active (some n.is_active) s d c e in
      passed_over (n.user_id == u.id && n.is_telegram) _ _ (m ∙ ap (λ b. b && n.is_active) a)
        (channels-refused u d ns a)

  users-matched :
      (cs : List NotificationChannel) (ds : List SignalDelivery) (us : List Subscriber)
      → matched_targets (trace_users cs s ds us) ≡ match_users cs s.asset c us
  unfolding trace_users match_users
  users-matched cs ds [] = refl
  users-matched cs ds (u ∷ us) =
      let d = delivery_of (is_user u.id) ds in
      let k = matched_targets-append (trace_channels u s d cs) (trace_users cs s ds us) in
      let l = users-matched cs ds us in
      elim (Bool-cases (accepts u.prefs s.asset c)) [
        | inl a ↦ k ∙ (rw a (ap₂ ◌++◌ (channels-accepted u d cs a) l))
        | inr a ↦ k ∙ (rw a (ap₂ ◌++◌ (channels-refused u d cs a) l))
      ]

  groups-matched :
      (ds : List SignalDelivery) (gs : List TelegramGroup)
      → matched_targets (trace_groups s ds gs) ≡ match_groups s.asset c gs
  unfolding trace_groups match_groups trace_group
  groups-matched ds [] = refl
  groups-matched ds (g ∷ gs) =
      let d = delivery_of (is_group g.id) ds in
      let m = trace_of-matched (to_group g.id) g.prefs true none s d c e in
      picked true true (accepts g.prefs s.asset c && true) (trace_group g s d) (to_group g.id)
        (trace_groups s ds gs) (match_groups s.asset c gs) m
        (trace_of-target (to_group g.id) g.prefs true none s d) (groups-matched ds gs)
      ∙ elim (Bool-cases (accepts g.prefs s.asset c)) [ inl a ↦ rw a refl | inr a ↦ rw a refl ]

-- For a signal with a confidence, the recipients that the trace reports as matched are the targets
-- of the fan-out, in the order of the tables, and `matched_count` is how many they are; and each
-- recipient has a reason exactly where it is not matched, which is never the fallback that all
-- filters passed.
pub delivery_trace-fan_out :
    (s : Signal) (box : Outbox) (c : ℕ)
    → s.confidence ≡ some c
    → let trace = delivery_trace s box in
      let ts =
        match_users box.channels s.asset c box.subscribers ++ match_groups s.asset c box.groups in
      (matched_targets trace.recipients ≡ ts)
      × ((trace.matched_count ≡ length ts) × All Explained trace.recipients)
unfolding delivery_trace
delivery_trace-fan_out s box c e =
    let ds = select (λ d. d.signal_id == s.id) box.deliveries in
    let us = trace_users box.channels s ds box.subscribers in
    let gs = trace_groups s ds box.groups in
    let h =
      matched_targets-append us gs
      ∙ ap₂ ◌++◌ (users-matched s c e box.channels ds box.subscribers)
          (groups-matched s c e ds box.groups) in
    (
      h,
      (
        matched_targets-count (us ++ gs) ∙ ap length h,
        All-append us gs (users-Explained box.channels s ds box.subscribers)
            (groups-Explained s ds box.groups),
      ),
    )

-- ===== src/Delivery/Reasons.antt =====
-- The reasons of a trace: one for each recipient that is not matched, and only for those.
use etfpulse.Base.{
  ℕ, ◌≡◌, refl, Bool, true, false, not, ◌&&◌, ◌==◌, Option, none, some, is_none, List, [], ◌∷◌,
  ◌++◌, inl, inr, Bool-cases, if◌then◌else◌, All,
}
use etfpulse.Delivery.Rows.{
  Signal, Target, to_group, SignalDelivery, DeliveryPrefs, Subscriber, NotificationChannel,
  TelegramGroup,
}
use etfpulse.Delivery.Trace.{
  Reason, all_passed, Recipient, asset_matches, confidence_matches, first_failing_reason, trace_of,
  trace_user, trace_group, trace_channels, trace_users, trace_groups, delivery_of, is_user,
}

abbrev pub is_all_passed : Option Reason → Bool
is_all_passed (some all_passed) = true
is_all_passed _ = false

-- A reason is given to those that are not matched, and it is a filter that failed.
pub record Explained (r : Recipient) : Type 0 where
  pub given : is_none r.exclude_reason ≡ r.matched
  pub real : is_all_passed r.exclude_reason ≡ false

flags-reason :
    (a p x m l : Bool) (c : Option ℕ)
    → let k = a && not p && x && m && l in
      let reason = if k then none else some (first_failing_reason a p x m l c) in
      (is_none reason ≡ k) × (is_all_passed reason ≡ false)
unfolding first_failing_reason
flags-reason false p x m l c = (refl, refl)
flags-reason true true x m l c = (refl, refl)
flags-reason true false false m l c = (refl, refl)
flags-reason true false true false l c = (refl, refl)
flags-reason true false true true false none = (refl, refl)
flags-reason true false true true false (some c) = (refl, refl)
flags-reason true false true true true c = (refl, refl)

trace_of-Explained :
    (t : Target) (p : DeliveryPrefs) (active : Bool) (ca : Option Bool) (s : Signal)
    (d : Option SignalDelivery)
    → Explained (trace_of t p active ca s d)
unfolding trace_of
trace_of-Explained t p active ca s d =
    let (g, r) =
      flags-reason p.is_active p.pref_paused active (asset_matches p.pref_assets s.asset)
        (confidence_matches p.pref_min_confidence s.confidence) s.confidence in
    record { given = g; real = r }

pub All-append :
    (xs ys : List Recipient) → All Explained xs → All Explained ys → All Explained (xs ++ ys)
All-append [] ys h k = k
All-append (x ∷ xs) ys (h, hs) k = (h, All-append xs ys hs k)

channels-Explained :
    (u : Subscriber) (s : Signal) (d : Option SignalDelivery) (cs : List NotificationChannel)
    → All Explained (trace_channels u s d cs)
unfolding trace_channels trace_user
channels-Explained u s d [] = tt
channels-Explained u s d (n ∷ ns) = elim (Bool-cases (n.user_id == u.id && n.is_telegram)) [
  | inl e ↦ rw e (trace_of-Explained _ u.prefs n.is_active _ s d, channels-Explained u s d ns)
  | inr e ↦ rw e (channels-Explained u s d ns)
]

pub users-Explained :
    (cs : List NotificationChannel) (s : Signal) (ds : List SignalDelivery) (us : List Subscriber)
    → All Explained (trace_users cs s ds us)
unfolding trace_users
users-Explained cs s ds [] = tt
users-Explained cs s ds (u ∷ us) =
    All-append (trace_channels u s (delivery_of (is_user u.id) ds) cs) (trace_users cs s ds us)
      (channels-Explained u s (delivery_of (is_user u.id) ds) cs) (users-Explained cs s ds us)

pub groups-Explained :
    (s : Signal) (ds : List SignalDelivery) (gs : List TelegramGroup)
    → All Explained (trace_groups s ds gs)
unfolding trace_groups trace_group
groups-Explained s ds [] = tt
groups-Explained s ds (g ∷ gs) =
    (trace_of-Explained (to_group g.id) g.prefs true none s _, groups-Explained s ds gs)

-- ===== src/Delivery/FanOut.antt =====
-- `fan_out_signal`, `_match_users`, `_match_groups`, `_asset_pref_filter`, and the job
-- `_fan_out_pending_with_session`.
use etfpulse.Base.{
  length, ℕ, suc, ◌+◌, Bool, true, false, not, ◌&&◌, ◌||◌, leb, ltb, ◌==◌, Option, none, some, List,
  [], ◌∷◌, ◌++◌, Text, text_eq, codes, any, find, select, map, if◌then◌else◌,
}
use etfpulse.Delivery.Rows.{
  SignalStatus, signal_pending, signal_alerted, Signal, delivery_pending, Target, to_channel,
  to_group, SignalDelivery, DeliveryPrefs, Subscriber, NotificationChannel, TelegramGroup, Outbox,
}

abbrev pub target_eq : Target → Target → Bool
target_eq (to_channel u c) (to_channel v d) = u == v && c == d
target_eq (to_group g) (to_group h) = g == h
target_eq (to_channel u c) (to_group h) = false
target_eq (to_group g) (to_channel v d) = false

abbrev is_empty : List Text → Bool
is_empty [] = true
is_empty (x ∷ xs) = false

-- `_asset_pref_filter`: a signal about the whole market reaches everybody.
unfoldable pub asset_pref_filter : List Text → Text → Bool
asset_pref_filter pref_assets asset =
    text_eq asset (codes "MARKET") || is_empty pref_assets || any (λ a. text_eq a asset) pref_assets

-- The part of the WHERE clause that users and groups share.
unfoldable pub accepts : DeliveryPrefs → Text → ℕ → Bool
accepts p asset confidence =
    p.is_active
    && not p.pref_paused
    && asset_pref_filter p.pref_assets asset
    && leb p.pref_min_confidence confidence

-- The channels of one user that the join keeps.
unfoldable pub channels_of : List NotificationChannel → ℕ → List Target
channels_of [] user = []
channels_of (c ∷ cs) user =
    let rest = channels_of cs user in
    if c.user_id == user && c.is_active && c.is_telegram then to_channel user c.id ∷ rest else rest

-- `_match_users`
unfoldable pub match_users : List NotificationChannel → Text → ℕ → List Subscriber → List Target
match_users cs asset confidence [] = []
match_users cs asset confidence (u ∷ us) =
    let rest = match_users cs asset confidence us in
    if accepts u.prefs asset confidence then channels_of cs u.id ++ rest else rest

-- `_match_groups`
unfoldable pub match_groups : Text → ℕ → List TelegramGroup → List Target
match_groups asset confidence [] = []
match_groups asset confidence (g ∷ gs) =
    let rest = match_groups asset confidence gs in
    if accepts g.prefs asset confidence then to_group g.id ∷ rest else rest

-- The two partial unique indexes: one row for a signal and a recipient.
abbrev pub is_for : ℕ → Target → SignalDelivery → Bool
is_for signal_id t d = d.signal_id == signal_id && target_eq d.target t

abbrev pub new_delivery : ℕ → ℕ → ℕ → Target → SignalDelivery
new_delivery id now signal_id t = record {
  id = id;
  signal_id = signal_id;
  target = t;
  status = delivery_pending;
  error_message = none;
  attempt_count = 0;
  last_attempt_at = none;
  created_at = now;
  delivered_at = none;
}

-- An insert with ON CONFLICT DO NOTHING: how many rows came in, and the table. A row that conflicts
-- has used an id of the sequence.
unfoldable pub insert_deliveries :
    ℕ → ℕ → ℕ → List Target → List SignalDelivery → ℕ × List SignalDelivery
insert_deliveries next now signal_id [] ds = (0, ds)
insert_deliveries next now signal_id (t ∷ ts) ds =
    let taken = any (is_for signal_id t) ds in
    let (n, ds') =
      insert_deliveries (suc next) now signal_id ts
        (if taken then ds else ds ++ new_delivery next now signal_id t ∷ []) in
    ((if taken then n else suc n), ds')

abbrev pub is_signal_pending : SignalStatus → Bool
is_signal_pending signal_pending = true
is_signal_pending _ = false

-- `x is not None and x < y`
abbrev pub below : Option ℕ → ℕ → Bool
below none y = false
below (some x) y = ltb x y

-- The two INSERTs, users before groups, and the signal's new status.
unfoldable pub fan_out_to : ℕ → Signal → ℕ → Outbox → ℕ × Outbox
fan_out_to now s confidence box =
    let ts =
      match_users box.channels s.asset confidence box.subscribers
      ++ match_groups s.asset confidence box.groups in
    let (inserted, ds) = insert_deliveries box.next_delivery_id now s.id ts box.deliveries in
    (
      inserted,
      record box {
        deliveries = ds;
        next_delivery_id = box.next_delivery_id + length ts;
        signals =
            map (λ x. if x.id == s.id then record x { status = signal_alerted } else x) box.signals;
      },
    )

-- The checks before: a confidence is there, and the confirmation score is not too low.
unfoldable pub fan_out_scored : ℕ → ℕ → Signal → Option ℕ → Outbox → ℕ × Outbox
fan_out_scored now min_confirmation s none box = (0, box)
fan_out_scored now min_confirmation s (some confidence) box =
    if below s.confirmation_score min_confirmation
    then (0, box)
    else fan_out_to now s confidence box

unfoldable pub fan_out_found : ℕ → ℕ → Option Signal → Outbox → ℕ × Outbox
fan_out_found now min_confirmation none box = (0, box)
fan_out_found now min_confirmation (some s) box =
    if not (is_signal_pending s.status)
    then (0, box)
    else if below s.expires_at now
    then (0, box)
    else fan_out_scored now min_confirmation s s.confidence box

-- `fan_out_signal`: `min_confirmation` is the setting `delivery_min_confirmation`.
unfoldable pub fan_out_signal : ℕ → ℕ → ℕ → Outbox → ℕ × Outbox
fan_out_signal now min_confirmation signal_id box =
    fan_out_found now min_confirmation (find (λ s. s.id == signal_id) box.signals) box

-- The job: every pending signal that has not expired. Its counts are of the signals and the rows.
unfoldable pub fan_out_all : ℕ → ℕ → List Signal → Outbox → (ℕ × ℕ) × Outbox
fan_out_all now min_confirmation [] box = ((0, 0), box)
fan_out_all now min_confirmation (s ∷ ss) box =
    let (n, box') = fan_out_signal now min_confirmation s.id box in
    let ((processed, fanned_out), box'') = fan_out_all now min_confirmation ss box' in
    ((suc processed, n + fanned_out), box'')

abbrev pub not_past : ℕ → Option ℕ → Bool
not_past now none = true
not_past now (some t) = ltb now t

unfoldable pub fan_out_pending : ℕ → ℕ → Outbox → (ℕ × ℕ) × Outbox
fan_out_pending now min_confirmation box =
    fan_out_all now min_confirmation
      (select (λ s. is_signal_pending s.status && not_past now s.expires_at) box.signals) box

-- ===== src/Delivery/Trace.antt =====
-- backend/etfpulse/api/routes/admin.py: the trace of a fan-out for operators, which mirrors the
-- filters of the fan-out. The reason for an exclusion is a text for people, and each of its texts is
-- a constructor; labels of the recipients are left out.
use etfpulse.Base.{
  ℕ, Bool, true, false, not, ◌&&◌, ◌||◌, leb, ◌==◌, Option, none, some, List, [], ◌∷◌, ◌++◌, Text,
  text_eq, codes, any, select, length, count_if, if◌then◌else◌,
}
use etfpulse.Delivery.Rows.{
  DeliveryStatus, delivery_delivered, delivery_failed, delivery_skipped, Signal, Target, to_channel,
  to_group, SignalDelivery, DeliveryPrefs, Subscriber, NotificationChannel, TelegramGroup, Outbox,
}
use etfpulse.Delivery.Send.{is_delivery_pending}

-- `_first_failing_reason`
pub data Reason : Type 0 where
  target_inactive target_paused channel_inactive asset_mismatch : Reason
  no_confidence below_floor all_passed : Reason

-- `DeliveryTraceRecipient`
pub record Recipient : Type 0 where
  pub target : Target
  pub target_active : Bool
  pub target_paused : Bool
  pub channel_active : Option Bool
  pub asset_match : Bool
  pub confidence_match : Bool
  pub matched : Bool
  pub exclude_reason : Option Reason
  pub delivery_status : Option DeliveryStatus
  pub delivery_attempts : Option ℕ
  pub delivery_error : Option Text

pub record DeliveryTrace : Type 0 where
  pub delivery_count : ℕ
  pub delivered_count : ℕ
  pub pending_count : ℕ
  pub failed_count : ℕ
  pub skipped_count : ℕ
  pub matched_count : ℕ
  pub recipients : List Recipient

abbrev has_none : List Text → Bool
has_none [] = true
has_none (x ∷ xs) = false

unfoldable pub asset_matches : List Text → Text → Bool
asset_matches pref_assets asset =
    if text_eq asset (codes "MARKET")
    then true
    else has_none pref_assets || any (λ a. text_eq a asset) pref_assets

unfoldable pub confidence_matches : ℕ → Option ℕ → Bool
confidence_matches floor none = false
confidence_matches floor (some confidence) = leb floor confidence

abbrev confidence_reason : Option ℕ → Reason
confidence_reason none = no_confidence
confidence_reason (some c) = below_floor

-- A group has no channel, and its channel counts as active.
unfoldable pub first_failing_reason : Bool → Bool → Bool → Bool → Bool → Option ℕ → Reason
first_failing_reason active paused channel_active asset_match confidence_match confidence =
    if not active
    then target_inactive
    else if paused
    then target_paused
    else if not channel_active
    then channel_inactive
    else if not asset_match
    then asset_mismatch
    else if not confidence_match
    then confidence_reason confidence
    else all_passed

abbrev status_of : Option SignalDelivery → Option DeliveryStatus
status_of none = none
status_of (some d) = some d.status

abbrev attempts_of : Option SignalDelivery → Option ℕ
attempts_of none = none
attempts_of (some d) = some d.attempt_count

abbrev error_of : Option SignalDelivery → Option Text
error_of none = none
error_of (some d) = d.error_message

-- What `_trace_user` and `_trace_group` share: the preferences, and the channel where there is one.
unfoldable pub trace_of :
    Target → DeliveryPrefs → Bool → Option Bool → Signal → Option SignalDelivery → Recipient
trace_of t p active channel_active s d =
    let asset_match = asset_matches p.pref_assets s.asset in
    let confidence_match = confidence_matches p.pref_min_confidence s.confidence in
    let matched = p.is_active && not p.pref_paused && active && asset_match && confidence_match in
    record {
      target = t;
      target_active = p.is_active;
      target_paused = p.pref_paused;
      channel_active = channel_active;
      asset_match = asset_match;
      confidence_match = confidence_match;
      matched = matched;
      exclude_reason =
          if matched
          then none
          else some (
              first_failing_reason p.is_active p.pref_paused active asset_match confidence_match
                s.confidence);
      delivery_status = status_of d;
      delivery_attempts = attempts_of d;
      delivery_error = error_of d;
    }

unfoldable pub trace_user :
    Subscriber → NotificationChannel → Signal → Option SignalDelivery → Recipient
trace_user u c s d = trace_of (to_channel u.id c.id) u.prefs c.is_active (some c.is_active) s d

unfoldable pub trace_group : TelegramGroup → Signal → Option SignalDelivery → Recipient
trace_group g s d = trace_of (to_group g.id) g.prefs true none s d

abbrev pub is_user : ℕ → Target → Bool
is_user id (to_channel u c) = u == id
is_user id (to_group g) = false

abbrev pub is_group : ℕ → Target → Bool
is_group id (to_channel u c) = false
is_group id (to_group g) = g == id

abbrev last_of : Option SignalDelivery → List SignalDelivery → Option SignalDelivery
last_of found [] = found
last_of found (d ∷ ds) = last_of (some d) ds

-- The two dictionaries by recipient: the last row of a key stays. The one of users has no channel in
-- its key.
unfoldable pub delivery_of : (Target → Bool) → List SignalDelivery → Option SignalDelivery
delivery_of p ds = last_of none (select (λ d. p d.target) ds)

unfoldable pub trace_channels :
    Subscriber → Signal → Option SignalDelivery → List NotificationChannel → List Recipient
trace_channels u s d [] = []
trace_channels u s d (c ∷ cs) =
    let rest = trace_channels u s d cs in
    if c.user_id == u.id && c.is_telegram then trace_user u c s d ∷ rest else rest

unfoldable pub trace_users :
    List NotificationChannel → Signal → List SignalDelivery → List Subscriber → List Recipient
trace_users cs s ds [] = []
trace_users cs s ds (u ∷ us) =
    trace_channels u s (delivery_of (is_user u.id) ds) cs ++ trace_users cs s ds us

unfoldable pub trace_groups : Signal → List SignalDelivery → List TelegramGroup → List Recipient
trace_groups s ds [] = []
trace_groups s ds (g ∷ gs) = trace_group g s (delivery_of (is_group g.id) ds) ∷ trace_groups s ds gs

abbrev is_delivered : DeliveryStatus → Bool
is_delivered delivery_delivered = true
is_delivered _ = false

abbrev is_failed : DeliveryStatus → Bool
is_failed delivery_failed = true
is_failed _ = false

abbrev is_skipped : DeliveryStatus → Bool
is_skipped delivery_skipped = true
is_skipped _ = false

-- The answer of the route for a signal that it has found.
unfoldable pub delivery_trace : Signal → Outbox → DeliveryTrace
delivery_trace s box =
    let ds = select (λ d. d.signal_id == s.id) box.deliveries in
    let rs = trace_users box.channels s ds box.subscribers ++ trace_groups s ds box.groups in
    record {
      delivery_count = length ds;
      delivered_count = count_if (λ d. is_delivered d.status) ds;
      pending_count = count_if (λ d. is_delivery_pending d.status) ds;
      failed_count = count_if (λ d. is_failed d.status) ds;
      skipped_count = count_if (λ d. is_skipped d.status) ds;
      matched_count = count_if (λ r. r.matched) rs;
      recipients = rs;
    }

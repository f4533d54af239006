-- ===== src/Delivery/Rows.antt =====
-- The rows of models/signal.py, models/delivery.py and models/user.py that delivery reads or writes.
-- A chat of Telegram is a text or a number that is compared only.
use etfpulse.Base.{ℕ, Bool, Option, List, Text}

pub data SignalStatus : Type 0 where
  signal_pending signal_alerted signal_expired : SignalStatus

pub record Signal : Type 0 where
  pub id : ℕ
  pub asset : Text
  pub status : SignalStatus
  pub confidence : Option ℕ
  pub confirmation_score : Option ℕ
  pub expires_at : Option ℕ

pub data DeliveryStatus : Type 0 where
  delivery_pending delivery_delivered delivery_failed delivery_skipped : DeliveryStatus

-- The CHECK `ck_delivery_target`: a user with a channel, or a group.
pub data Target : Type 0 where
  to_channel : ℕ → ℕ → Target
  to_group : ℕ → Target

pub record SignalDelivery : Type 0 where
  pub id : ℕ
  pub signal_id : ℕ
  pub target : Target
  pub status : DeliveryStatus
  pub error_message : Option Text
  pub attempt_count : ℕ
  pub last_attempt_at : Option ℕ
  pub created_at : ℕ
  pub delivered_at : Option ℕ

-- `DeliveryPrefsMixin`
pub record DeliveryPrefs : Type 0 where
  pub is_active : Bool
  pub pref_assets : List Text
  pub pref_min_confidence : ℕ
  pub pref_paused : Bool

pub record Subscriber : Type 0 where
  pub id : ℕ
  pub prefs : DeliveryPrefs

pub record NotificationChannel : Type 0 where
  pub id : ℕ
  pub user_id : ℕ
  pub is_telegram : Bool
  pub channel_identifier : Text
  pub is_active : Bool

pub record TelegramGroup : Type 0 where
  pub id : ℕ
  pub chat_id : ℕ
  pub prefs : DeliveryPrefs

pub record Outbox : Type 0 where
  pub signals : List Signal
  pub subscribers : List Subscriber
  pub channels : List NotificationChannel
  pub groups : List TelegramGroup
  pub deliveries : List SignalDelivery
  pub next_delivery_id : ℕ

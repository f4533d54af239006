-- ===== src/Tests/Delivery.antt =====
-- The fan-out and the worker.
use etfpulse.Base.{
  ℕ, ◌+◌, ◌≤◌, ◌≡◌, refl, true, false, none, some, [], ◌∷◌, ◌++◌, ◌&&◌, All, codes, arith, length,
  count_if, select,
}
use etfpulse.Delivery.Rows.{Signal, signal_pending, to_channel, to_group, DeliveryPrefs, Outbox}
use etfpulse.Delivery.FanOut.{
  fan_out_found, fan_out_scored, fan_out_to, insert_deliveries, match_users, match_groups, accepts,
  asset_pref_filter, channels_of, fan_out_signal, fan_out_pending, new_delivery, is_signal_pending,
  not_past,
}
use etfpulse.Delivery.Send.{
  Message, telegram_error, SendEnv, send_pending_deliveries, is_due, is_delivery_pending,
}
use etfpulse.Delivery.Worker.{send_pending_deliveries-counts, bucketed}
use etfpulse.Delivery.Retries.{ticks, ticks-settled}
use etfpulse.Delivery.Once.{SentOnce, fan_out_pending-SentOnce}
use etfpulse.Delivery.Twice.{fan_out_signal-twice}
use etfpulse.Delivery.Keeps.{Settles}
use etfpulse.Delivery.Trace.{delivery_trace}
use etfpulse.Delivery.Reasons.{Explained}
use etfpulse.Delivery.Traced.{matched_targets, delivery_trace-fan_out}
use etfpulse.Delivery.Steps.{Reach, done, step, fan_out, send, Reach-Settles, Reach-SentOnce}

abbrev prefs : DeliveryPrefs
prefs = record { is_active = true; pref_assets = []; pref_min_confidence = 5; pref_paused = false }

-- One pending signal, a subscriber with a channel, and a group.
abbrev box : Outbox
box = record {
  signals =
      record {
        id = 7;
        asset = codes "BTC";
        status = signal_pending;
        confidence = some 60;
        confirmation_score = none;
        expires_at = some 5000000000;
      }
      ∷ [];
  subscribers = record { id = 1; prefs = prefs } ∷ [];
  channels =
      record {
        id = 2;
        user_id = 1;
        is_telegram = true;
        channel_identifier = codes "555";
        is_active = true;
      }
      ∷ [];
  groups = record { id = 3; chat_id = 900; prefs = prefs } ∷ [];
  deliveries = [];
  next_delivery_id = 1;
}

abbrev fanned : Outbox
fanned = (fan_out_signal 1000 50 7 box).1

two_recipients : (fan_out_signal 1000 50 7 box).0 ≡ 2
unfolding fan_out_signal fan_out_found fan_out_scored fan_out_to insert_deliveries match_users
    match_groups accepts asset_pref_filter channels_of
two_recipients = refl

-- Telegram fails for a group that has moved, and is not there for anyone else.
abbrev env_at : ℕ → SendEnv
env_at now = record {
  now = now;
  delivery_max_attempts = 2;
  delivery_retry_base_seconds = 10;
  telegram = λ before m. telegram_error (codes "503");
}

SentOnce-none : SentOnce box.deliveries
SentOnce-none k u = omega arith

fan_out_pending-SentOnce_example :
    let ((processed, fanned_out), box') = fan_out_pending 1000 50 box in
    let live = select (λ s. is_signal_pending s.status && not_past 1000 s.expires_at) box.signals in
    (processed ≡ length live)
    × (SentOnce box'.deliveries × (length box'.deliveries ≡ length box.deliveries + fanned_out))
fan_out_pending-SentOnce_example = fan_out_pending-SentOnce 1000 50 box SentOnce-none

fan_out_signal-twice_example :
    fan_out_signal 2000 50 7 (fan_out_signal 1000 50 7 box).1
    ≡ (0, (fan_out_signal 1000 50 7 box).1)
fan_out_signal-twice_example = fan_out_signal-twice 1000 2000 50 7 box (omega arith)

-- Two rows that were never attempted.
abbrev waiting : Outbox
waiting = record box {
  deliveries = new_delivery 1 1000 7 (to_channel 1 2) ∷ new_delivery 2 1000 7 (to_group 3) ∷ [];
}

send_pending_deliveries-counts_example :
    let due = count_if (is_due (env_at 2000)) waiting.deliveries in
    let s = (send_pending_deliveries (env_at 2000) [] waiting).0 in
    (s.summary.total ≡ due)
    × ((bucketed s.summary ≡ due) × (length s.messages ≤ length {A = Message} [] + due))
send_pending_deliveries-counts_example = send_pending_deliveries-counts (env_at 2000) [] waiting

two_due : count_if (is_due (env_at 2000)) waiting.deliveries ≡ 2
unfolding is_due
two_due = refl

ticks-settled_example :
    All
      (λ d. is_delivery_pending d.status ≡ false)
      (ticks (env_at 100000000 ∷ env_at 200000000 ∷ []) [] waiting).deliveries
ticks-settled_example =
    ticks-settled 2 10 0 1000 (env_at 100000000 ∷ env_at 200000000 ∷ []) [] waiting
      ((λ p. (omega arith, (omega arith, tt))), ((λ p. (omega arith, (omega arith, tt))), tt))
      (refl, (refl, (omega arith, (refl, (refl, (omega arith, tt)))))) (omega arith)

-- A fan-out and then a tick of the worker.
abbrev after : Outbox
after = (send_pending_deliveries (env_at 2000) [] (fan_out_pending 1000 50 waiting).1).1

abbrev run : Reach waiting after
run =
    step waiting _ after (fan_out 1000 50 waiting)
      (step _ after after (send (env_at 2000) [] _) (done after))

SentOnce-waiting : SentOnce waiting.deliveries
SentOnce-waiting k (to_channel u c) = ground arith
SentOnce-waiting k (to_group g) = ground arith

Reach-Settles_example : Settles waiting.deliveries after.deliveries
Reach-Settles_example = Reach-Settles waiting after run

Reach-SentOnce_example : SentOnce after.deliveries
Reach-SentOnce_example = Reach-SentOnce waiting after run SentOnce-waiting

-- The group takes only signals of another asset.
abbrev choosy : Outbox
choosy = record waiting {
  groups =
      record { id = 3; chat_id = 900; prefs = record prefs { pref_assets = codes "ETH" ∷ [] } }
      ∷ [];
}

abbrev btc : Signal
btc = record {
  id = 7;
  asset = codes "BTC";
  status = signal_pending;
  confidence = some 60;
  confirmation_score = none;
  expires_at = none;
}

delivery_trace-fan_out_example :
    let trace = delivery_trace btc choosy in
    let ts =
      match_users choosy.channels btc.asset 60 choosy.subscribers
      ++ match_groups btc.asset 60 choosy.groups in
    (matched_targets trace.recipients ≡ ts)
    × ((trace.matched_count ≡ length ts) × All Explained trace.recipients)
delivery_trace-fan_out_example = delivery_trace-fan_out btc choosy 60 refl

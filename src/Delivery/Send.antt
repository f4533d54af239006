-- ===== src/Delivery/Send.antt =====
-- `send_pending_deliveries`. The text and the keyboard of a message are functions of the signal and
-- are left out: a message is its chat and its signal. The worker goes through the table in order; a
-- row's own columns decide whether it is due, and no row is visited twice.
use etfpulse.Base.{
  ℕ, suc, ◌+◌, ◌*◌, ◌^◌, Bool, true, false, not, ◌&&◌, leb, ◌==◌, Option, none, some, List, [], ◌∷◌,
  ◌++◌, Text, codes, take, find, map, if◌then◌else◌,
}
use etfpulse.Execution.Wire.{str}
use etfpulse.Delivery.Rows.{
  DeliveryStatus, delivery_pending, delivery_delivered, delivery_failed, delivery_skipped, Target,
  to_channel, to_group, SignalDelivery, NotificationChannel, TelegramGroup, Outbox,
}

-- Where a message goes: the identifier of a channel, or the chat of a group.
pub data Chat : Type 0 where
  user_chat : Text → Chat
  group_chat : ℕ → Chat

pub record Message : Type 0 where
  pub chat : Chat
  pub signal_id : ℕ

-- What `send_message` comes to: the time of sending, or one of the adapter's exceptions.
pub data SendResult : Type 0 where
  sent_at : ℕ → SendResult
  blocked_error chat_not_found_error : Text → SendResult
  chat_migrated_error : ℕ → SendResult
  telegram_error : Text → SendResult

-- The clock in microseconds, the two settings, and Telegram: its answer to a message after those
-- before it.
pub record SendEnv : Type 0 where
  pub now : ℕ
  pub delivery_max_attempts : ℕ
  pub delivery_retry_base_seconds : ℕ
  pub telegram : List Message → Message → SendResult

pub record SendSummary : Type 0 where
  pub total : ℕ
  pub sent : ℕ
  pub failed : ℕ
  pub blocked : ℕ
  pub chat_not_found : ℕ
  pub migrated : ℕ
  pub retrying : ℕ
  pub skipped_no_target : ℕ

abbrev pub no_sends : SendSummary
no_sends = record {
  total = 0;
  sent = 0;
  failed = 0;
  blocked = 0;
  chat_not_found = 0;
  migrated = 0;
  retrying = 0;
  skipped_no_target = 0;
}

-- What the rounds of a tick share.
pub record Round : Type 0 where
  pub channels : List NotificationChannel
  pub groups : List TelegramGroup
  pub messages : List Message
  pub summary : SendSummary

abbrev pub is_delivery_pending : DeliveryStatus → Bool
is_delivery_pending delivery_pending = true
is_delivery_pending _ = false

-- `backoff_elapsed`, both sides doubled: the base times 2 ^ (attempt_count - 1), in microseconds.
abbrev pub backoff_elapsed : ℕ → ℕ → ℕ → Option ℕ → Bool
backoff_elapsed now base attempts none = true
backoff_elapsed now base attempts (some last) =
    leb (base * 1000000 * 2 ^ attempts + 2 * last) (2 * now)

unfoldable pub is_due : SendEnv → SignalDelivery → Bool
is_due env d =
    is_delivery_pending d.status
    && backoff_elapsed env.now env.delivery_retry_base_seconds d.attempt_count d.last_attempt_at

abbrev pub find_channel : ℕ → List NotificationChannel → Option NotificationChannel
find_channel id cs = find (λ c. c.id == id) cs

abbrev pub find_group : ℕ → List TelegramGroup → Option TelegramGroup
find_group id gs = find (λ g. g.id == id) gs

abbrev channel_chat : Option NotificationChannel → Option Chat
channel_chat none = none
channel_chat (some c) = some (user_chat c.channel_identifier)

abbrev telegram_chat : Option TelegramGroup → Option Chat
telegram_chat none = none
telegram_chat (some g) = some (group_chat g.chat_id)

-- `chat_id`: of the channel or of the group that the row is linked to.
unfoldable pub chat_of : Target → Round → Option Chat
chat_of (to_channel user c) s = channel_chat (find_channel c s.channels)
chat_of (to_group g) s = telegram_chat (find_group g s.groups)

-- The target takes no more messages.
unfoldable pub deactivate : Target → Round → Round
deactivate (to_channel user id) s = record s {
  channels = map (λ c. if c.id == id then record c { is_active = false } else c) s.channels;
}
deactivate (to_group id) s = record s {
  groups =
      map
        (λ g. if g.id == id then record g { prefs = record (g.prefs) { is_active = false } } else g)
        s.groups;
}

-- Another group that has the chat already.
abbrev pub holder_of : ℕ → ℕ → List TelegramGroup → Option TelegramGroup
holder_of chat id gs = find (λ g. g.chat_id == chat && not (g.id == id)) gs

abbrev new_chat : ℕ → Text
new_chat chat = codes "migrated: new chat_id=" ++ str chat

abbrev taken_over : ℕ → Option TelegramGroup → Text
taken_over chat none = new_chat chat
taken_over chat (some g) = codes "migrated: target already registered as group_id=" ++ str g.id

-- The message about a migration.
unfoldable pub migration_note : ℕ → Target → Round → Text
migration_note chat (to_channel user id) s = new_chat chat
migration_note chat (to_group id) s = taken_over chat (holder_of chat id s.groups)

abbrev pub moved : ℕ → ℕ → Option TelegramGroup → Round → Round
moved chat id (some g) s = deactivate (to_group id) s
moved chat id none s = record s {
  groups = map (λ g. if g.id == id then record g { chat_id = chat } else g) s.groups;
}

-- A group moves to its new chat, unless another group has it: then the row is deactivated.
unfoldable pub migrate : ℕ → Target → Round → Round
migrate chat (to_channel user id) s = s
migrate chat (to_group id) s = moved chat id (holder_of chat id s.groups) s

abbrev pub attempted : ℕ → SignalDelivery → SignalDelivery
attempted now d = record d { attempt_count = suc d.attempt_count; last_attempt_at = some now }

abbrev pub failed_with : Text → SignalDelivery → SignalDelivery
failed_with message d = record d { status = delivery_failed; error_message = some message }

-- `delivery.attempt_count >= max_attempts`, of the row after the attempt was counted.
unfoldable pub is_last_attempt : SendEnv → SignalDelivery → Bool
is_last_attempt env d = leb env.delivery_max_attempts d.attempt_count

abbrev at_cap : SendEnv → Text → Text
at_cap env exc =
    codes "max_attempts=" ++ str env.delivery_max_attempts ++ codes " reached: " ++ take 460 exc

-- The row after Telegram's answer.
unfoldable pub answered_row : SendEnv → Round → SignalDelivery → SendResult → SignalDelivery
answered_row env s d (sent_at t) = record d {
  status = delivery_delivered;
  delivered_at = some t;
  error_message = none;
}
answered_row env s d (blocked_error exc) = failed_with (codes "blocked: " ++ take 480 exc) d
answered_row env s d (chat_not_found_error exc) =
    failed_with (codes "chat not found: " ++ take 480 exc) d
answered_row env s d (chat_migrated_error chat) = failed_with (migration_note chat d.target s) d
answered_row env s d (telegram_error exc) =
    if is_last_attempt env d
    then failed_with (at_cap env exc) d
    else record d { error_message = some (take 500 exc) }

abbrev pub tally : (SendSummary → SendSummary) → Round → Round
tally f s = record s { summary = f s.summary }

abbrev count_transient : Bool → SendSummary → SendSummary
count_transient last c =
    if last then record c { failed = suc c.failed } else record c { retrying = suc c.retrying }

-- What the answer does to the target and to the counts.
unfoldable pub answered_round : SendEnv → SignalDelivery → SendResult → Round → Round
answered_round env d (sent_at t) s = tally (λ c. record c { sent = suc c.sent }) s
answered_round env d (blocked_error exc) s =
    tally (λ c. record c { blocked = suc c.blocked }) (deactivate d.target s)
answered_round env d (chat_not_found_error exc) s =
    tally (λ c. record c { chat_not_found = suc c.chat_not_found }) (deactivate d.target s)
answered_round env d (chat_migrated_error chat) s =
    tally (λ c. record c { migrated = suc c.migrated }) (migrate chat d.target s)
answered_round env d (telegram_error exc) s = tally (count_transient (is_last_attempt env d)) s

-- The attempt is counted before the message goes out.
unfoldable pub send_to : SendEnv → SignalDelivery → Chat → Round → SignalDelivery × Round
send_to env d chat s =
    let d' = attempted env.now d in
    let message : Message = record { chat = chat; signal_id = d.signal_id } in
    let answer = env.telegram s.messages message in
    (
      answered_row env s d' answer,
      answered_round env d' answer (record s { messages = s.messages ++ message ∷ [] }),
    )

abbrev skipped : SignalDelivery → SignalDelivery
skipped d = record d {
  status = delivery_skipped;
  error_message = some (codes "delivery target missing (channel/group not linked)");
}

unfoldable pub send_due : SendEnv → SignalDelivery → Option Chat → Round → SignalDelivery × Round
send_due env d none s =
    (skipped d, tally (λ c. record c { skipped_no_target = suc c.skipped_no_target }) s)
send_due env d (some chat) s = send_to env d chat s

unfoldable pub send_row : SendEnv → SignalDelivery → Round → SignalDelivery × Round
send_row env d s =
    if is_due env d
    then send_due env d (chat_of d.target s) (tally (λ c. record c { total = suc c.total }) s)
    else (d, s)

unfoldable pub send_rows : SendEnv → List SignalDelivery → Round → List SignalDelivery × Round
send_rows env [] s = ([], s)
send_rows env (d ∷ ds) s =
    let (d', s') = send_row env d s in let (ds', s'') = send_rows env ds s' in (d' ∷ ds', s'')

-- A tick of the worker. `messages` are those that went out before it.
unfoldable pub send_pending_deliveries : SendEnv → List Message → Outbox → Round × Outbox
send_pending_deliveries env messages box =
    let (ds, s) = send_rows env box.deliveries (record {
      channels = box.channels;
      groups = box.groups;
      messages = messages;
      summary = no_sends;
    }) in
    (s, record box { deliveries = ds; channels = s.channels; groups = s.groups })

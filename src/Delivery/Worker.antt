-- ===== src/Delivery/Worker.antt =====
-- A tick of the worker counts each due row once, in one bucket, and sends at most one message for it.
use etfpulse.Base.{
  ap, ◌∙◌, ℕ, suc, ◌+◌, ◌≤◌, ◌≡◌, refl, Option, none, some, List, [], ◌∷◌, ◌++◌, arith, count_if,
  length, length-append, inl, inr, Bool-cases, Option-cases, if◌then◌else◌,
}
use etfpulse.Delivery.Rows.{SignalDelivery, Target, to_channel, to_group, TelegramGroup, Outbox}
use etfpulse.Delivery.Send.{
  tally, SendResult, sent_at, blocked_error, chat_not_found_error, chat_migrated_error,
  telegram_error, SendEnv, Chat, Message, SendSummary, no_sends, Round, is_due, chat_of, deactivate,
  migrate, moved, holder_of, is_last_attempt, attempted, answered_round, send_to, send_due,
  send_row, send_rows, send_pending_deliveries,
}

-- The rows that a tick has put into a bucket.
abbrev pub bucketed : SendSummary → ℕ
bucketed c =
    c.sent + c.failed + c.blocked + c.chat_not_found + c.migrated + c.retrying + c.skipped_no_target

-- The counts and the number of messages of a round, before and after a row.
Counted : ℕ → Round → Round → Type 0
Counted n s s' =
    (s'.summary.total ≡ s.summary.total + n)
    × ((bucketed s'.summary ≡ bucketed s.summary + n)
        × (length s'.messages ≤ length s.messages + n))

deactivate-same :
    (t : Target) (s : Round)
    → ((deactivate t s).summary ≡ s.summary) × ((deactivate t s).messages ≡ s.messages)
unfolding deactivate
deactivate-same (to_channel u c) s = (refl, refl)
deactivate-same (to_group g) s = (refl, refl)

moved-same :
    (chat id : ℕ) (h : Option TelegramGroup) (s : Round)
    → ((moved chat id h s).summary ≡ s.summary) × ((moved chat id h s).messages ≡ s.messages)
moved-same chat id none s = (refl, refl)
moved-same chat id (some g) s = deactivate-same (to_group id) s

migrate-same :
    (chat : ℕ) (t : Target) (s : Round)
    → ((migrate chat t s).summary ≡ s.summary) × ((migrate chat t s).messages ≡ s.messages)
unfolding migrate
migrate-same chat (to_channel u c) s = (refl, refl)
migrate-same chat (to_group id) s = moved-same chat id (holder_of chat id s.groups) s

-- An answer adds one to the buckets, and leaves the total and the messages.
answered-counts :
    (env : SendEnv) (d : SignalDelivery) (a : SendResult) (s : Round)
    → ((answered_round env d a s).summary.total ≡ s.summary.total)
      × ((bucketed (answered_round env d a s).summary ≡ bucketed s.summary + 1)
          × ((answered_round env d a s).messages ≡ s.messages))
unfolding answered_round
answered-counts env d (sent_at t) s = (refl, (omega arith, refl))
answered-counts env d (blocked_error e) s =
    let (c, m) = deactivate-same d.target s in rw c (refl, (omega arith, m))
answered-counts env d (chat_not_found_error e) s =
    let (c, m) = deactivate-same d.target s in rw c (refl, (omega arith, m))
answered-counts env d (chat_migrated_error chat) s =
    let (c, m) = migrate-same chat d.target s in rw c (refl, (omega arith, m))
answered-counts env d (telegram_error e) s = elim (Bool-cases (is_last_attempt env d)) [
  | inl l ↦ rw l (refl, (omega arith, refl))
  | inr l ↦ rw l (refl, (omega arith, refl))
]

send_to-Counted :
    (env : SendEnv) (d : SignalDelivery) (chat : Chat) (s : Round)
    → let s' = (send_to env d chat s).1 in
      (s'.summary.total ≡ s.summary.total)
      × ((bucketed s'.summary ≡ bucketed s.summary + 1)
          × (length s'.messages ≡ length s.messages + 1))
unfolding send_to
send_to-Counted env d chat s =
    let message : Message = record { chat = chat; signal_id = d.signal_id } in
    let s0 : Round = record s { messages = s.messages ++ message ∷ [] } in
    let (t, (b, m)) =
      answered-counts env (attempted env.now d) (env.telegram s.messages message) s0 in
    (t, (b, ap length m ∙ length-append s.messages (message ∷ [])))

send_row-Counted :
    (env : SendEnv) (d : SignalDelivery) (s : Round)
    → Counted (if is_due env d then 1 else 0) s (send_row env d s).1
unfolding send_row send_due Counted
send_row-Counted env d s = elim (Bool-cases (is_due env d)) [
  | inr e ↦ rw (e, send_row) (omega arith, (omega arith, omega arith))
  | inl e ↦ elim (Option-cases (chat_of d.target s)) [
    | inl n ↦ rw (e, send_row, n, send_due) (omega arith, (omega arith, omega arith))
    | inr (chat, c) ↦
        let (t, (b, m)) =
          send_to-Counted env d chat (tally (λ c. record c { total = suc c.total }) s) in
        rw (e, send_row, c, send_due) (omega (arith, t), (omega (arith, b), omega (arith, m)))
  ]
]

send_rows-Counted :
    (env : SendEnv) (ds : List SignalDelivery) (s : Round)
    → Counted (count_if (is_due env) ds) s (send_rows env ds s).1
unfolding send_rows Counted
send_rows-Counted env [] s = (omega arith, (omega arith, omega arith))
send_rows-Counted env (d ∷ ds) s =
    let s1 = (send_row env d s).1 in
    let (t, (b, m)) = send_row-Counted env d s in
    let (t', (b', m')) = send_rows-Counted env ds s1 in
    (omega (arith, t, t'), (omega (arith, b, b'), omega (arith, m, m')))

-- A tick counts in `total` the rows that were due, and each of them in exactly one of the other
-- seven counts; and it sends no more messages than that.
pub send_pending_deliveries-counts :
    (env : SendEnv) (messages : List Message) (box : Outbox)
    → let due = count_if (is_due env) box.deliveries in
      let s = (send_pending_deliveries env messages box).0 in
      (s.summary.total ≡ due)
      × ((bucketed s.summary ≡ due) × (length s.messages ≤ length messages + due))
unfolding send_pending_deliveries Counted
send_pending_deliveries-counts env messages box =
    let (t, (b, m)) = send_rows-Counted env box.deliveries (record {
      channels = box.channels;
      groups = box.groups;
      messages = messages;
      summary = no_sends;
    }) in
    (omega (arith, t), (omega (arith, b), m))

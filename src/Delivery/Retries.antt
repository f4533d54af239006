-- ===== src/Delivery/Retries.antt =====
-- Retries end: a delivery is attempted a bounded number of times, and is settled after that many
-- ticks with enough time between them.
use etfpulse.Base.{
  ℕ, suc, ◌+◌, ◌*◌, ◌^◌, ◌≤◌, ◌<◌, ◌≡◌, refl, true, false, leb, Option, none, some, List, [], ◌∷◌,
  All, arith, length, inl, inr, Bool-cases, Option-cases, Text, subst, sym,
}
use etfpulse.Delivery.Rows.{SignalDelivery, Outbox}
use etfpulse.Delivery.Send.{
  SendResult, sent_at, blocked_error, chat_not_found_error, chat_migrated_error, telegram_error,
  SendEnv, Message, Round, is_due, is_delivery_pending, chat_of, is_last_attempt, attempted,
  answered_row, send_to, send_due, send_row, send_rows, send_pending_deliveries, no_sends,
}
use native.Mathlib.Nat.{pow-le-pow_right, mul-le-mul_left}

-- Ticks of the worker, one after the other.
abbrev pub ticks : List SendEnv → List Message → Outbox → Outbox
ticks [] messages box = box
ticks (env ∷ envs) messages box =
    let (s, box') = send_pending_deliveries env messages box in ticks envs s.messages box'

-- The last attempt, if there was one, was not after a time.
abbrev pub TriedBy : ℕ → Option ℕ → Type 0
TriedBy t none = Unit
TriedBy t (some last) = last ≤ t

-- A row that is still pending has had `n` attempts or more, and has some left of `most`.
abbrev pub HasBudget : ℕ → ℕ → ℕ → SignalDelivery → Type 0
HasBudget most n t d =
    is_delivery_pending d.status ≡ true
    → (n ≤ d.attempt_count) × ((d.attempt_count < most) × TriedBy t d.last_attempt_at)

-- Ticks of one pair of settings, each as long after the one before as the longest backoff.
abbrev pub Spaced : ℕ → ℕ → ℕ → List SendEnv → Type 0
Spaced most base t [] = Unit
Spaced most base t (env ∷ envs) =
    (env.delivery_max_attempts ≡ most)
    × ((env.delivery_retry_base_seconds ≡ base)
        × ((t + base * 1000000 * 2 ^ most ≤ env.now) × Spaced most base env.now envs))

not_last :
    (env : SendEnv) (d : SignalDelivery)
    → is_last_attempt env d ≡ false
    → d.attempt_count < env.delivery_max_attempts
unfolding is_last_attempt
not_last env d h = ground arith

transient-HasBudget :
    (env : SendEnv) (s : Round) (d : SignalDelivery) (exc : Text)
    → HasBudget env.delivery_max_attempts
        (suc d.attempt_count)
        env.now
        (answered_row env s (attempted env.now d) (telegram_error exc))
unfolding answered_row
transient-HasBudget env s d exc = elim (Bool-cases (is_last_attempt env (attempted env.now d))) [
  | inl l ↦ rw (l, answered_row) λ p. ground arith
  | inr l ↦
      rw (l, answered_row) λ p. (omega arith, (not_last env (attempted env.now d) l, omega arith))
]

-- The row after an answer is settled, or it has an attempt more, and some left.
answered-HasBudget :
    (env : SendEnv) (s : Round) (d : SignalDelivery) (a : SendResult)
    → HasBudget env.delivery_max_attempts
        (suc d.attempt_count)
        env.now
        (answered_row env s (attempted env.now d) a)
unfolding answered_row
answered-HasBudget env s d (sent_at t) p = ground arith
answered-HasBudget env s d (blocked_error e) p = ground arith
answered-HasBudget env s d (chat_not_found_error e) p = ground arith
answered-HasBudget env s d (chat_migrated_error chat) p = ground arith
answered-HasBudget env s d (telegram_error e) p = transient-HasBudget env s d e p

-- A row that is visited when it is due has one attempt more, or is settled.
due-HasBudget :
    (env : SendEnv) (s : Round) (d : SignalDelivery) (n : ℕ)
    → n ≤ d.attempt_count
    → is_due env d ≡ true
    → HasBudget env.delivery_max_attempts (suc n) env.now (send_row env d s).0
unfolding send_row send_due send_to
due-HasBudget env s d n more due = elim (Option-cases (chat_of d.target s)) [
  | inl e ↦ rw (due, send_row, e, send_due) λ p. ground arith
  | inr (chat, e) ↦
      rw (due, send_row, e, send_due)
        λ p. let (k, (l, t)) = answered-HasBudget env _ d _ p in (omega (arith, k), (l, t))
]

-- A settled row stays as it is.
resting-HasBudget :
    (env : SendEnv) (s : Round) (d : SignalDelivery) (most n t : ℕ)
    → is_delivery_pending d.status ≡ false
    → HasBudget most n t (send_row env d s).0
unfolding send_row is_due
resting-HasBudget env s d most n t idle = rw (idle, send_row) λ p. ground (arith, p, idle)

elapsed :
    (now base most attempts last t : ℕ)
    → attempts < most
    → last ≤ t
    → t + base * 1000000 * 2 ^ most ≤ now
    → leb (base * 1000000 * 2 ^ attempts + 2 * last) (2 * now) ≡ true
elapsed now base most attempts last t few before late =
    let h = pow-le-pow_right {n = 2} (omega arith) {i = attempts} {j = most} (omega arith) in
    let k = mul-le-mul_left (base * 1000000) h in ground (arith, k)

ready :
    (env : SendEnv) (d : SignalDelivery) (most n t : ℕ)
    → HasBudget most n t d
    → t + env.delivery_retry_base_seconds * 1000000 * 2 ^ most ≤ env.now
    → is_delivery_pending d.status ≡ true
    → is_due env d ≡ true
unfolding is_due
ready env d most n t budget late p =
    let (more, (few, before)) = budget p in
    elim (Option-cases d.last_attempt_at) [
      | inl e ↦ rw (p, e) refl
      | inr (last, e) ↦
          let h =
            elapsed env.now env.delivery_retry_base_seconds most d.attempt_count last t few
              (subst (TriedBy t) e before) late in
          rw (p, e) h
    ]

-- A row after a tick that comes long enough after the one before.
send_row-HasBudget :
    (env : SendEnv) (s : Round) (d : SignalDelivery) (n t : ℕ)
    → HasBudget env.delivery_max_attempts n t d
    → t + env.delivery_retry_base_seconds * 1000000 * 2 ^ env.delivery_max_attempts ≤ env.now
    → HasBudget env.delivery_max_attempts (suc n) env.now (send_row env d s).0
send_row-HasBudget env s d n t budget late = elim (Bool-cases (is_delivery_pending d.status)) [
  | inl p ↦
      due-HasBudget env s d n (budget p).0 (ready env d env.delivery_max_attempts n t budget late p)
  | inr q ↦ resting-HasBudget env s d env.delivery_max_attempts (suc n) env.now q
]

send_rows-HasBudget :
    (env : SendEnv) (n t : ℕ) (ds : List SignalDelivery) (s : Round)
    → All (HasBudget env.delivery_max_attempts n t) ds
    → t + env.delivery_retry_base_seconds * 1000000 * 2 ^ env.delivery_max_attempts ≤ env.now
    → All (HasBudget env.delivery_max_attempts (suc n) env.now) (send_rows env ds s).0
unfolding send_rows
send_rows-HasBudget env n t [] s h late = h
send_rows-HasBudget env n t (d ∷ ds) s (h, hs) late = (
  send_row-HasBudget env s d n t h late,
  send_rows-HasBudget env n t ds (send_row env d s).1 hs late,
)

-- The same, for settings given apart.
retuned :
    (env : SendEnv) (most base n t : ℕ) (ds : List SignalDelivery) (s : Round)
    → env.delivery_max_attempts ≡ most
    → env.delivery_retry_base_seconds ≡ base
    → All (HasBudget most n t) ds
    → t + base * 1000000 * 2 ^ most ≤ env.now
    → All (HasBudget most (suc n) env.now) (send_rows env ds s).0
retuned env most base n t ds s m b h late =
    let h0 = subst (λ k. All (HasBudget k n t) ds) (sym m) h in
    let late0 : t + env.delivery_retry_base_seconds * 1000000 * 2 ^ env.delivery_max_attempts
        ≤ env.now =
      rw (m, b) late in
    let h1 = send_rows-HasBudget env n t ds s h0 late0 in
    subst (λ k. All (HasBudget k (suc n) env.now) (send_rows env ds s).0) m h1

All-HasBudget-settled :
    (most n t : ℕ) (ds : List SignalDelivery)
    → most ≤ n
    → All (HasBudget most n t) ds
    → All (λ d. is_delivery_pending d.status ≡ false) ds
All-HasBudget-settled most n t [] enough h = h
All-HasBudget-settled most n t (d ∷ ds) enough (h, hs) = (
  elim (Bool-cases (is_delivery_pending d.status)) [
    | inl p ↦ let (more, (few, b)) = h p in ground (arith, more, few)
    | inr q ↦ q
  ],
  All-HasBudget-settled most n t ds enough hs,
)

-- Where every pending row has had no attempt after time `t` and has at least `n` behind it and some
-- left of `most`, ticks of the settings `most` and `base`, as many as `most - n`, each at least
-- `base * 2 ^ most` seconds after the one before (the first after `t`), leave no row pending,
-- whatever Telegram answers.
pub ticks-settled :
    (most base n t : ℕ) (envs : List SendEnv) (messages : List Message) (box : Outbox)
    → All (HasBudget most n t) box.deliveries
    → Spaced most base t envs
    → n + length envs ≡ most
    → All (λ d. is_delivery_pending d.status ≡ false) (ticks envs messages box).deliveries
unfolding send_pending_deliveries
ticks-settled most base n t [] messages box h spaced all =
    All-HasBudget-settled most n t box.deliveries (omega (arith, all)) h
ticks-settled most base n t (env ∷ envs) messages box h (m, (b, (late, spaced))) all =
    let s0 : Round = record {
      channels = box.channels;
      groups = box.groups;
      messages = messages;
      summary = no_sends;
    } in
    let h' : All (HasBudget most (suc n) env.now) (send_rows env box.deliveries s0).0 =
      retuned env most base n t box.deliveries s0 m b h late in
    let (s, box') = send_pending_deliveries env messages box in
    ticks-settled most base (suc n) env.now envs s.messages box' h' spaced (omega (arith, all))

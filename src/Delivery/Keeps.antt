-- ===== src/Delivery/Keeps.antt =====
-- What every change of the table of deliveries keeps: its rows in their places, each with its signal
-- and its recipient, and a settled row as it is.
use etfpulse.Base.{
  ℕ, suc, ◌+◌, ◌≤◌, ◌≡◌, refl, ap, ◌∙◌, true, false, Option, none, some, List, [], ◌∷◌, ◌++◌, arith,
  any, find, count_if, count_if-map, ap₂, ◌==◌, inl, inr, Bool-cases, if◌then◌else◌, ◌&&◌,
}
use etfpulse.Delivery.Rows.{Target, SignalDelivery, Outbox, Signal}
use etfpulse.Delivery.FanOut.{
  target_eq, is_for, new_delivery, insert_deliveries, match_users, match_groups, is_signal_pending,
  below, fan_out_to, fan_out_scored, fan_out_found, fan_out_signal, fan_out_all,
}
use etfpulse.Delivery.Send.{
  SendResult, sent_at, blocked_error, chat_not_found_error, chat_migrated_error, telegram_error,
  SendEnv, Chat, Round, is_due, is_delivery_pending, chat_of, is_last_attempt, attempted,
  answered_row, send_to, send_due, send_row, send_rows, tally,
}
use etfpulse.Reaper.{is_stuck, fail_stuck, bulk_update}

-- A row, later. A settled row is the same; a pending one has its recipient, and no fewer attempts.
pub record Onward (d d' : SignalDelivery) : Type 0 where
  pub same_signal : d'.signal_id ≡ d.signal_id
  pub same_target : d'.target ≡ d.target
  pub more_attempts : d.attempt_count ≤ d'.attempt_count
  pub settled : is_delivery_pending d.status ≡ false → d' ≡ d

-- The table, later. New rows stand at the end.
pub data Settles : List SignalDelivery → List SignalDelivery → Type 0 where
  new_rows : (ds : List SignalDelivery) → Settles [] ds
  and_row :
      (d d' : SignalDelivery) (ds ds' : List SignalDelivery)
      → Onward d d'
      → Settles ds ds'
      → Settles (d ∷ ds) (d' ∷ ds')

Onward-refl : (d : SignalDelivery) → Onward d d
Onward-refl d = record {
  same_signal = refl;
  same_target = refl;
  more_attempts = omega arith;
  settled = λ h. refl;
}

Onward-trans : (a b c : SignalDelivery) → Onward a b → Onward b c → Onward a c
Onward-trans a b c p q = record {
  same_signal = q.same_signal ∙ p.same_signal;
  same_target = q.same_target ∙ p.same_target;
  more_attempts = omega (arith, p.more_attempts, q.more_attempts);
  settled = λ h. q.settled (ap (λ d. is_delivery_pending d.status) (p.settled h) ∙ h) ∙ p.settled h;
}

pub Settles-refl : (ds : List SignalDelivery) → Settles ds ds
Settles-refl [] = new_rows []
Settles-refl (d ∷ ds) = and_row d d ds ds (Onward-refl d) (Settles-refl ds)

pub Settles-trans : (xs ys zs : List SignalDelivery) → Settles xs ys → Settles ys zs → Settles xs zs
Settles-trans [] ys zs p q = new_rows zs
Settles-trans (x ∷ xs) [] zs p q = elim p [ ]
Settles-trans (x ∷ xs) (y ∷ ys) [] p q = elim q [ ]
Settles-trans (x ∷ xs) (y ∷ ys) (z ∷ zs) (and_row _ _ _ _ p ps) (and_row _ _ _ _ q qs) =
    and_row x z xs zs (Onward-trans x y z p q) (Settles-trans xs ys zs ps qs)

Settles-append : (ds es : List SignalDelivery) → Settles ds (ds ++ es)
Settles-append [] es = new_rows es
Settles-append (d ∷ ds) es = and_row d d ds (ds ++ es) (Onward-refl d) (Settles-append ds es)

insert_deliveries-Settles :
    (next now signal_id : ℕ) (ts : List Target) (ds : List SignalDelivery)
    → Settles ds (insert_deliveries next now signal_id ts ds).1
unfolding insert_deliveries
insert_deliveries-Settles next now signal_id [] ds = Settles-refl ds
insert_deliveries-Settles next now signal_id (t ∷ ts) ds =
    let ds1 =
      if any (is_for signal_id t) ds then ds else ds ++ new_delivery next now signal_id t ∷ [] in
    let h : Settles ds ds1 = elim (Bool-cases (any (is_for signal_id t) ds)) [
      | inl e ↦ rw e (Settles-refl ds)
      | inr e ↦ rw e (Settles-append ds (new_delivery next now signal_id t ∷ []))
    ] in
    Settles-trans ds ds1 _ h (insert_deliveries-Settles (suc next) now signal_id ts ds1)

fan_out_scored-Settles :
    (now m : ℕ) (s : Signal) (c : Option ℕ) (box : Outbox)
    → Settles box.deliveries (fan_out_scored now m s c box).1.deliveries
unfolding fan_out_scored fan_out_to
fan_out_scored-Settles now m s none box = Settles-refl box.deliveries
fan_out_scored-Settles now m s (some confidence) box =
    elim (Bool-cases (below s.confirmation_score m)) [
      | inl e ↦ rw e (Settles-refl box.deliveries)
      | inr e ↦ rw e (
          insert_deliveries-Settles box.next_delivery_id now s.id
            (match_users box.channels s.asset confidence box.subscribers
              ++ match_groups s.asset confidence box.groups)
            box.deliveries)
    ]

fan_out_found-Settles :
    (now m : ℕ) (s : Option Signal) (box : Outbox)
    → Settles box.deliveries (fan_out_found now m s box).1.deliveries
unfolding fan_out_found
fan_out_found-Settles now m none box = Settles-refl box.deliveries
fan_out_found-Settles now m (some s) box = elim (Bool-cases (is_signal_pending s.status)) [
  | inr e ↦ rw e (Settles-refl box.deliveries)
  | inl e ↦ elim (Bool-cases (below s.expires_at now)) [
    | inl x ↦ rw (e, x) (Settles-refl box.deliveries)
    | inr x ↦ rw (e, x) (fan_out_scored-Settles now m s s.confidence box)
  ]
]

pub fan_out_all-Settles :
    (now m : ℕ) (ss : List Signal) (box : Outbox)
    → Settles box.deliveries (fan_out_all now m ss box).1.deliveries
unfolding fan_out_all fan_out_signal
fan_out_all-Settles now m [] box = Settles-refl box.deliveries
fan_out_all-Settles now m (s ∷ ss) box =
    let box1 = (fan_out_signal now m s.id box).1 in
    Settles-trans box.deliveries box1.deliveries (fan_out_all now m ss box1).1.deliveries
      (fan_out_found-Settles now m (find (λ x. x.id == s.id) box.signals) box)
      (fan_out_all-Settles now m ss box1)

-- What a change of a pending row has to keep.
pending-Onward :
    (d d' : SignalDelivery)
    → is_delivery_pending d.status ≡ true
    → d'.signal_id ≡ d.signal_id
    → d'.target ≡ d.target
    → d.attempt_count ≤ d'.attempt_count
    → Onward d d'
pending-Onward d d' p s t a = record {
  same_signal = s;
  same_target = t;
  more_attempts = a;
  settled = λ h. ground (arith, p, h);
}

answered_row-keeps :
    (env : SendEnv) (s : Round) (d : SignalDelivery) (a : SendResult)
    → let d' = answered_row env s d a in
      (d'.signal_id ≡ d.signal_id) × ((d'.target ≡ d.target) × (d'.attempt_count ≡ d.attempt_count))
unfolding answered_row
answered_row-keeps env s d (sent_at t) = (refl, (refl, refl))
answered_row-keeps env s d (blocked_error e) = (refl, (refl, refl))
answered_row-keeps env s d (chat_not_found_error e) = (refl, (refl, refl))
answered_row-keeps env s d (chat_migrated_error e) = (refl, (refl, refl))
answered_row-keeps env s d (telegram_error e) = elim (Bool-cases (is_last_attempt env d)) [
  | inl l ↦ rw l (refl, (refl, refl))
  | inr l ↦ rw l (refl, (refl, refl))
]

send_due-Onward :
    (env : SendEnv) (d : SignalDelivery) (chat : Option Chat) (s : Round)
    → is_delivery_pending d.status ≡ true
    → Onward d (send_due env d chat s).0
unfolding send_due send_to
send_due-Onward env d none s p = pending-Onward d _ p refl refl (omega arith)
send_due-Onward env d (some chat) s p =
    let (i, (t, a)) = answered_row-keeps env s (attempted env.now d) _ in
    pending-Onward d _ p i t (omega (arith, a))

due-pending :
    (env : SendEnv) (d : SignalDelivery) → is_due env d ≡ true → is_delivery_pending d.status ≡ true
unfolding is_due
due-pending env d h = ground arith

stuck-pending :
    (now age : ℕ) (d : SignalDelivery)
    → is_stuck now age d ≡ true
    → is_delivery_pending d.status ≡ true
unfolding is_stuck
stuck-pending now age d h = ground arith

fail_stuck-Onward :
    (now age : ℕ) (d : SignalDelivery) → Onward d (if is_stuck now age d then fail_stuck d else d)
fail_stuck-Onward now age d = elim (Bool-cases (is_stuck now age d)) [
  | inl e ↦
      rw e (pending-Onward d (fail_stuck d) (stuck-pending now age d e) refl refl (omega arith))
  | inr e ↦ rw e (Onward-refl d)
]

send_row-Onward : (env : SendEnv) (d : SignalDelivery) (s : Round) → Onward d (send_row env d s).0
unfolding send_row
send_row-Onward env d s = elim (Bool-cases (is_due env d)) [
  | inr e ↦ rw (e, send_row) (Onward-refl d)
  | inl e ↦
      let counted = tally (λ c. record c { total = suc c.total }) s in
      rw (e, send_row) (send_due-Onward env d (chat_of d.target s) counted (due-pending env d e))
]

pub send_rows-Settles :
    (env : SendEnv) (ds : List SignalDelivery) (s : Round) → Settles ds (send_rows env ds s).0
unfolding send_rows
send_rows-Settles env [] s = new_rows []
send_rows-Settles env (d ∷ ds) s =
    and_row d (send_row env d s).0 ds _ (send_row-Onward env d s)
      (send_rows-Settles env ds (send_row env d s).1)

pub fail_stuck-Settles :
    (now age : ℕ) (ds : List SignalDelivery)
    → Settles ds (bulk_update (is_stuck now age) fail_stuck ds)
fail_stuck-Settles now age [] = new_rows []
fail_stuck-Settles now age (d ∷ ds) =
    and_row d _ ds _ (fail_stuck-Onward now age d) (fail_stuck-Settles now age ds)

-- A row has its signal and its recipient for good.
is_for-Onward :
    (k : ℕ) (u : Target) (d d' : SignalDelivery) → Onward d d' → is_for k u d' ≡ is_for k u d
is_for-Onward k u d d' o =
    ap (λ i. i == k && target_eq d'.target u) o.same_signal
    ∙ ap (λ t. d.signal_id == k && target_eq t u) o.same_target

pub send_rows-count :
    (env : SendEnv) (k : ℕ) (u : Target) (ds : List SignalDelivery) (s : Round)
    → count_if (is_for k u) (send_rows env ds s).0 ≡ count_if (is_for k u) ds
unfolding send_rows
send_rows-count env k u [] s = refl
send_rows-count env k u (d ∷ ds) s =
    ap₂ (λ b n. (if b then 1 else 0) + n) (is_for-Onward k u d _ (send_row-Onward env d s))
      (send_rows-count env k u ds (send_row env d s).1)

pub fail_stuck-count :
    (now age k : ℕ) (u : Target) (ds : List SignalDelivery)
    → count_if (is_for k u) (bulk_update (is_stuck now age) fail_stuck ds)
      ≡ count_if (is_for k u) ds
fail_stuck-count now age k u ds =
    count_if-map (is_for k u) _ ds λ d. is_for-Onward k u d _ (fail_stuck-Onward now age d)

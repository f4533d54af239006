-- ===== src/Delivery/Once.antt =====
-- No recipient gets a signal twice: at most one row for each signal and target, the count that a
-- fan-out returns, and a fan-out that is called again.
use etfpulse.Base.{
  ℕ, suc, ◌+◌, ◌≤◌, ◌≡◌, refl, ap, ap₂, ==_iff, subst, Bool, true, false, ◌&&◌, ◌==◌, Option, none,
  some, List, [], ◌∷◌, ◌++◌, arith, any, select, count_if, count_if-append, find, length,
  length-append, inl, inr, Bool-cases,
}
use etfpulse.Delivery.Rows.{Target, to_channel, to_group, Signal, SignalDelivery, Outbox}
use etfpulse.Delivery.FanOut.{
  target_eq, is_for, new_delivery, insert_deliveries, match_users, match_groups, is_signal_pending,
  below, fan_out_to, fan_out_scored, fan_out_found, fan_out_signal, fan_out_all, fan_out_pending,
  not_past,
}

-- The table has a row for a signal and a target once at most.
abbrev pub SentOnce : List SignalDelivery → Type 0
SentOnce ds = (signal_id : ℕ) (t : Target) → count_if (is_for signal_id t) ds ≤ 1

both : (a b : Bool) → (a && b) ≡ true → (a ≡ true) × (b ≡ true)
both a b h = ground arith

target_eq→eq : (t u : Target) → target_eq t u ≡ true → t ≡ u
target_eq→eq (to_channel a b) (to_channel c d) h =
    let (i, j) = both (a == c) (b == d) h in ap₂ to_channel ((==_iff a c).0 i) ((==_iff b d).0 j)
target_eq→eq (to_group a) (to_group b) h = ap to_group ((==_iff a b).0 h)
target_eq→eq (to_channel a b) (to_group c) h = ground arith
target_eq→eq (to_group a) (to_channel b c) h = ground arith

count_if-none : {A : Type 0} (p : A → Bool) (xs : List A) → any p xs ≡ false → count_if p xs ≡ 0
count_if-none p [] h = refl
count_if-none p (x ∷ xs) h = elim (Bool-cases (p x)) [
  | inl e ↦ ground (arith, h, e)
  | inr e ↦ ground (arith, h, e, count_if-none p xs)
]

-- A row that is new to the table keeps it so.
insert-SentOnce :
    (next now signal_id : ℕ) (t : Target) (ds : List SignalDelivery)
    → SentOnce ds
    → any (is_for signal_id t) ds ≡ false
    → SentOnce (ds ++ new_delivery next now signal_id t ∷ [])
insert-SentOnce next now signal_id t ds once fresh other u =
    let h = count_if-append (is_for other u) ds (new_delivery next now signal_id t ∷ []) in
    elim (Bool-cases (is_for other u (new_delivery next now signal_id t))) [
      | inl e ↦
          let (i, j) = both (signal_id == other) (target_eq t u) e in
          let absent : any (is_for other u) ds ≡ false =
            subst (λ v. any (is_for v u) ds ≡ false) ((==_iff signal_id other).0 i)
              (subst (λ v. any (is_for signal_id v) ds ≡ false) (target_eq→eq t u j) fresh) in
          let none_yet = count_if-none (is_for other u) ds absent in
          rw (h, e) omega (arith, none_yet)
      | inr e ↦ rw (h, e) omega (arith, once other u)
    ]

-- The inserts come to as many rows as they return, and leave no signal twice with a target.
insert_deliveries-SentOnce :
    (next now signal_id : ℕ) (ts : List Target) (ds : List SignalDelivery)
    → SentOnce ds
    → let (n, ds') = insert_deliveries next now signal_id ts ds in
      SentOnce ds' × (length ds' ≡ length ds + n)
unfolding insert_deliveries
insert_deliveries-SentOnce next now signal_id [] ds once = (once, omega arith)
insert_deliveries-SentOnce next now signal_id (t ∷ ts) ds once =
    elim (Bool-cases (any (is_for signal_id t) ds)) [
      | inl e ↦ rw e (insert_deliveries-SentOnce (suc next) now signal_id ts ds once)
      | inr e ↦
          let ds1 = ds ++ new_delivery next now signal_id t ∷ [] in
          let (o, l) =
            insert_deliveries-SentOnce (suc next) now signal_id ts ds1
              (insert-SentOnce next now signal_id t ds once e) in
          let k = length-append ds (new_delivery next now signal_id t ∷ []) in
          rw e (o, omega (arith, l, k))
    ]

-- What a fan-out promises of the table.
abbrev pub Fanned : Outbox → ℕ × Outbox → Type 0
Fanned box (n, box') =
    SentOnce box'.deliveries × (length box'.deliveries ≡ length box.deliveries + n)

same-Fanned : (box : Outbox) → SentOnce box.deliveries → Fanned box (0, box)
same-Fanned box once = (once, omega arith)

fan_out_to-Fanned :
    (now : ℕ) (s : Signal) (confidence : ℕ) (box : Outbox)
    → SentOnce box.deliveries
    → Fanned box (fan_out_to now s confidence box)
unfolding fan_out_to
fan_out_to-Fanned now s confidence box once =
    insert_deliveries-SentOnce box.next_delivery_id now s.id
      (match_users box.channels s.asset confidence box.subscribers
        ++ match_groups s.asset confidence box.groups)
      box.deliveries once

fan_out_scored-Fanned :
    (now min_confirmation : ℕ) (s : Signal) (c : Option ℕ) (box : Outbox)
    → SentOnce box.deliveries
    → Fanned box (fan_out_scored now min_confirmation s c box)
unfolding fan_out_scored
fan_out_scored-Fanned now m s none box once = same-Fanned box once
fan_out_scored-Fanned now m s (some confidence) box once =
    elim (Bool-cases (below s.confirmation_score m)) [
      | inl e ↦ rw e (same-Fanned box once)
      | inr e ↦ rw e (fan_out_to-Fanned now s confidence box once)
    ]

fan_out_found-Fanned :
    (now min_confirmation : ℕ) (s : Option Signal) (box : Outbox)
    → SentOnce box.deliveries
    → Fanned box (fan_out_found now min_confirmation s box)
unfolding fan_out_found
fan_out_found-Fanned now m none box once = same-Fanned box once
fan_out_found-Fanned now m (some s) box once = elim (Bool-cases (is_signal_pending s.status)) [
  | inr e ↦ rw e (same-Fanned box once)
  | inl e ↦ elim (Bool-cases (below s.expires_at now)) [
    | inl x ↦ rw (e, x) (same-Fanned box once)
    | inr x ↦ rw (e, x) (fan_out_scored-Fanned now m s s.confidence box once)
  ]
]

pub fan_out_all-Fanned :
    (now min_confirmation : ℕ) (ss : List Signal) (box : Outbox)
    → SentOnce box.deliveries
    → let ((processed, n), box') = fan_out_all now min_confirmation ss box in
      (processed ≡ length ss) × Fanned box (n, box')
unfolding fan_out_all fan_out_signal
fan_out_all-Fanned now m [] box once = (omega arith, same-Fanned box once)
fan_out_all-Fanned now m (s ∷ ss) box once =
    let (o, l) = fan_out_found-Fanned now m (find (λ x. x.id == s.id) box.signals) box once in
    let (p, (o', l')) = fan_out_all-Fanned now m ss (fan_out_signal now m s.id box).1 o in
    (omega (arith, p), (o', omega (arith, l, l')))

-- On a table with at most one row for each signal and recipient, the job keeps that, its count of
-- rows is what the table has grown by, and its count of signals is that of the pending signals that
-- have not expired.
pub fan_out_pending-SentOnce :
    (now min_confirmation : ℕ) (box : Outbox)
    → SentOnce box.deliveries
    → let ((processed, fanned_out), box') = fan_out_pending now min_confirmation box in
      let live =
        select (λ s. is_signal_pending s.status && not_past now s.expires_at) box.signals in
      (processed ≡ length live)
      × (SentOnce box'.deliveries × (length box'.deliveries ≡ length box.deliveries + fanned_out))
unfolding fan_out_pending
fan_out_pending-SentOnce now m box once = fan_out_all-Fanned now m _ box once

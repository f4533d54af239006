-- ===== src/Execution/Sends.antt =====
-- What goes to the venue.
use etfpulse.Base.{
  ℕ, ◌≡◌, refl, ◌∙◌, false, not, is_none, ◌&&◌, or_zero, [], ◌∷◌, ◌++◌, Text, ◌⊎◌, inl, inr,
  Bool-cases, subst,
}
use etfpulse.Models.{
  Order, Sent, Db, Action, Result, ok, raised, pure, raise_if, value_error, save_order, ◌>>=◌, ◌>>◌,
}
use etfpulse.Models.Checks.{is_known, order_checks}
use etfpulse.Execution.Clients.{
  Env, Answer, items, sodex_auth_error, sodex_envelope_error, other_error, SubmitResult,
}
use etfpulse.Execution.Wire.{extract_params_bytes}
use etfpulse.Execution.Orders.{
  flush_order, send, reject_submission, load_user, default_api_key_resolver, or_empty, answered,
}
use etfpulse.Execution.Paper.{simulate_paper_fill, record_paper_fill, apply_fill, simulate_fill}
use etfpulse.Execution.Submit.{after_answer, dispatch_real_submission, lift}
use etfpulse.Execution.Frames.{
  split, load_user-Quiet, default_api_key_resolver-Quiet, apply_fill-Quiet, simulate_fill-Quiet,
}

-- No write goes out.
abbrev pub Silent {ℓ} : {A : Type ℓ} → Action A → Type 0
Silent m = (db : Db) → (m db).1.sent ≡ db.sent

pub flush_order-Silent : (o : Order) → Silent (flush_order o)
unfolding flush_order save_order
flush_order-Silent o db = elim (Bool-cases (order_checks o)) [
  | inl e ↦ rw (e, flush_order) refl
  | inr e ↦ rw (e, flush_order) refl
]

module _ {ℓ κ} {A : Type ℓ} {B : Type κ} where
  pub Silent->>= :
      (m : Action A) (f : A → Action B) → Silent m → ((a : A) → Silent (f a)) → Silent (m >>= f)
  Silent->>= m f q k db =
      split f (λ t. t.1.sent ≡ db.sent) (m db) (λ e. q db) (λ a. k a (m db).1 ∙ q db)

pub flush_pure-Silent {ℓ} : {A : Type ℓ} (o : Order) (r : A) → Silent (flush_order o >> pure r)
flush_pure-Silent o r =
    Silent->>= (flush_order o) (λ _. pure r) (flush_order-Silent o) (λ _ db. refl)

pub reject_submission-Silent : (o : Order) (t : Text) → Silent (reject_submission o t)
unfolding reject_submission
reject_submission-Silent o t = flush_pure-Silent _ _

record_paper_fill-Silent : (o : Order) (fp fs : _) (p : _) → Silent (record_paper_fill o fp fs p)
unfolding record_paper_fill
record_paper_fill-Silent o fp fs p db = elim (Bool-cases (is_none p && o.reduce_only)) [
  | inl e ↦ rw (e, record_paper_fill) (flush_pure-Silent _ _ db)
  | inr e ↦ rw (e, record_paper_fill) (flush_pure-Silent _ _ db)
]

pub simulate_paper_fill-Silent : (now bps : ℕ) (o : Order) → Silent (simulate_paper_fill now bps o)
unfolding simulate_paper_fill
simulate_paper_fill-Silent now bps o =
    Silent->>= (simulate_fill bps o)
      (λ x. apply_fill now o x.0 x.1 >>= λ p. record_paper_fill o x.0 x.1 p)
      (λ db. (simulate_fill-Quiet bps o db).1)
      (λ x.
        Silent->>= (apply_fill now o x.0 x.1) (λ p. record_paper_fill o x.0 x.1 p)
          (λ db. (apply_fill-Quiet now o x.0 x.1 db).1) (λ p. record_paper_fill-Silent o x.0 x.1 p))

after_answer-Silent : (o : Order) (a : Answer) → Silent (after_answer o a)
unfolding after_answer
after_answer-Silent o (items []) db = flush_pure-Silent _ _ db
after_answer-Silent o (items (i ∷ [])) db = flush_pure-Silent _ _ db
after_answer-Silent o (items (i ∷ j ∷ is)) db = flush_pure-Silent _ _ db
after_answer-Silent o (sodex_auth_error t) db = flush_pure-Silent _ _ db
after_answer-Silent o (sodex_envelope_error t) db = flush_pure-Silent _ _ db
after_answer-Silent o (other_error e) db = refl

-- At most one write goes out, and it is as stated.
abbrev pub SendsOnly {ℓ κ} : {A : Type ℓ} → (Sent → Type κ) → Action A → Type κ
SendsOnly P m =
    (db : Db)
    → ((m db).1.sent ≡ db.sent) ⊎ ((s : Sent) × (P s × ((m db).1.sent ≡ db.sent ++ s ∷ [])))

module _ {ℓ κ μ} {A : Type ℓ} {B : Type κ} (P : Sent → Type μ) where
  pub SendsOnly->>= :
      (m : Action A) (f : A → Action B)
      → Silent m
      → ((a : A) → SendsOnly P (f a))
      → SendsOnly P (m >>= f)
  SendsOnly->>= m f q k db =
      split f (λ t. (t.1.sent ≡ db.sent) ⊎ ((s : Sent) × (P s × (t.1.sent ≡ db.sent ++ s ∷ []))))
        (m db) (λ e. inl (q db))
        (λ a.
          subst
            (λ x.
              ((f a (m db).1).1.sent ≡ x)
              ⊎ ((s : Sent) × (P s × ((f a (m db).1).1.sent ≡ x ++ s ∷ []))))
            (q db) (k a (m db).1))

answered-Silent : (a : Answer) → Silent (answered a)
answered-Silent (items is) db = refl
answered-Silent (sodex_auth_error t) db = refl
answered-Silent (sodex_envelope_error t) db = refl
answered-Silent (other_error e) db = refl

module _ {κ μ} {B : Type κ} (P : Sent → Type μ) where
  pub SendsOnly-send :
      (env : Env) (s : Sent) (f : Answer → Action B)
      → P s
      → ((a : Answer) → Silent (f a))
      → SendsOnly P (send env s >>= f)
  unfolding send
  SendsOnly-send env s f p k db =
      inr (s, (p, Silent->>= (answered (env.gateway db.sent s)) f (answered-Silent _) k _))

  pub SendsOnly-lift :
      (r : Result Text) (f : Text → Action B)
      → ((t : Text) → r ≡ ok t → SendsOnly P (f t))
      → SendsOnly P (lift r >>= f)
  SendsOnly-lift (ok t) f k db = k t refl db
  SendsOnly-lift (raised e) f k db = inl refl

-- The write that a stored order stands for: its own venue, signature and nonce, and the bytes that
-- were signed as `params`.
abbrev pub IsSubmission : Env → Order → Sent → Type 0
IsSubmission env o s =
    (s.is_cancel ≡ false)
    × ((s.venue ≡ o.venue)
        × ((s.signature ≡ or_empty o.eip712_signature)
            × ((s.nonce ≡ or_zero o.nonce)
                × (extract_params_bytes env.is_action_json (or_empty o.eip712_payload)
                    ≡ ok s.body))))

unfoldable pub write_of : Order → Text → Text → Sent
write_of o key body = record {
  venue = o.venue;
  is_cancel = false;
  body = body;
  signature = or_empty o.eip712_signature;
  nonce = or_zero o.nonce;
  api_key_name = key;
}

guarded_send : Env → Order → Text → Text → Action SubmitResult
guarded_send env o key body =
    raise_if (not (is_known o.venue)) value_error
    >> (send env (write_of o key body) >>= after_answer o)

keyed_send : Env → Order → Text → Action SubmitResult
keyed_send env o key =
    lift (extract_params_bytes env.is_action_json (or_empty o.eip712_payload))
    >>= guarded_send env o key

pub dispatch_real_submission-sends :
    (env : Env) (o : Order) → SendsOnly (IsSubmission env o) (dispatch_real_submission env o)
unfolding dispatch_real_submission keyed_send guarded_send write_of
dispatch_real_submission-sends env o =
    let P = IsSubmission env o in
    SendsOnly->>= P (load_user o.user_id)
      (λ u. default_api_key_resolver u o.venue >>= keyed_send env o)
      (λ db. (load_user-Quiet o.user_id db).1)
      (λ u.
        SendsOnly->>= P (default_api_key_resolver u o.venue) (keyed_send env o)
          (λ db. (default_api_key_resolver-Quiet u o.venue db).1)
          (λ key. SendsOnly-lift P _ (guarded_send env o key) (λ body e.
            SendsOnly->>= P (raise_if (not (is_known o.venue)) value_error)
              (λ _. send env (write_of o key body) >>= after_answer o) (λ db. refl)
              (λ _.
                SendsOnly-send P env (write_of o key body) (after_answer o)
                  (refl, (refl, (refl, (refl, e)))) (after_answer-Silent o)))))

-- ===== src/Life/Cancels.antt =====
-- `prepare_cancel` and `submit_cancel` along the life of an order.
use etfpulse.Base.{
  ◌⊎◌, ℕ, ◌/◌, ◌≡◌, refl, arith, true, false, not, ◌||◌, Option, none, some, is_none, [], ◌∷◌, Text,
  List, inl, inr, Bool-cases, Option-cases, codes,
}
use etfpulse.Models.{
  Order, OrderStatus, pending, submitted, acked, partially_filled, filled, cancelled, rejected,
  expired, User, Db, Action, pure, raise_if, gets, value_error, find_user, is_terminal, ◌>>=◌, ◌>>◌,
}
use etfpulse.Models.Checks.{is_signature, is_known}
use etfpulse.Positions.{option_eq}
use etfpulse.Nonce.{next_nonce_for_user}
use etfpulse.Risk.Gates.{is_blank}
use etfpulse.Execution.Clients.{
  Env, SubmitResult, PrepareCancelResult, user_not_found, Bundle, Answer, items, sodex_auth_error,
  sodex_envelope_error, other_error,
}
use etfpulse.Execution.Wire.{extract_params_bytes, lower}
use etfpulse.Execution.Orders.{flush_order, send, load_user, default_api_key_resolver, or_empty}
use etfpulse.Execution.Submit.{lift}
use etfpulse.Execution.Cancel.{
  cancel_request, build_cancel_order_bundle, denied, with_cancel, prepare_venue_cancel,
  prepare_live_cancel, prepare_own_cancel, prepare_loaded, prepare_cancel, cancel_failed,
  cancel_reported, after_cancel_answer, dispatch_real_cancel, cancel_signed, send_cancel,
  submit_prepared_cancel, submit_cancel_loaded, submit_cancel,
}
use etfpulse.Execution.CancelDelivery.{cancel_of}
use etfpulse.Life.{rank, Advanced}
use etfpulse.Life.Rows.{OnlyRow}
use etfpulse.Life.Upholds.{
  Kept, Upholds, Upholds->>=, Upholds->>, Upholds-if, Upholds-test, load_user-Upholds,
  default_api_key_resolver-Upholds, flush_order-Upholds, flush_pure-Upholds, send-Upholds,
  loaded-Kept,
}

-- A row that is not terminal keeps its status, or is cancelled.
IsCancelOf : Order → Order → Type 0
IsCancelOf b o = (o.id ≡ b.id) × ((o.status ≡ b.status) ⊎ (o.status ≡ cancelled))

from_live : (b o : Order) → is_terminal b.status ≡ false → IsCancelOf b o → Advanced b o
unfolding rank IsCancelOf
from_live b o live (same, h) = record {
  same_id = same;
  forward = ground arith;
  settled = λ t. ground arith;
}

module _ (xs : List Order) (b : Order) (only : OnlyRow b xs)
    (live : is_terminal b.status ≡ false) where
  flush_reply {ℓ} :
      {A : Type ℓ} (o : Order) (r : A) → IsCancelOf b o → Upholds xs (flush_order o >> pure r)
  flush_reply o r h = flush_pure-Upholds xs b o r only (from_live b o live h)

  build-Upholds :
      (env : Env) (account : Option ℕ) (nonce : ℕ)
      → Upholds xs (build_cancel_order_bundle env b account nonce)
  unfolding build_cancel_order_bundle
  build-Upholds env none nonce db k = k
  build-Upholds env (some account) nonce db k = elim (Option-cases b.symbol_id) [
    | inl e ↦ rw e k
    | inr (id, e) ↦ elim (Bool-cases (is_known b.venue)) [
      | inl v ↦ elim (Option-cases (env.build_cancel_order (cancel_request b account id) nonce)) [
        | inl n ↦ rw (e, v, n) k
        | inr (bundle, n) ↦ rw (e, v, n) k
      ]
      | inr v ↦ rw (e, v) k
    ]
  ]

  prepare_venue_cancel-Upholds :
      (env : Env) (user : User) → Upholds xs (prepare_venue_cancel env b user)
  unfolding prepare_venue_cancel with_cancel IsCancelOf
  prepare_venue_cancel-Upholds env user =
      Upholds->>= xs (gets (next_nonce_for_user (env.now / 1000) user.id)) bundled (λ db k. k)
        λ n.
          Upholds->>= xs (build_cancel_order_bundle env b user.sodex_account_id n) (written n)
            (build-Upholds env user.sodex_account_id n)
            λ bundle. flush_reply (with_cancel b n bundle) _ (refl, inl refl)
    where
      written : ℕ → Bundle → Action PrepareCancelResult
      written n bundle =
          flush_order (with_cancel b n bundle)
          >> pure (record {
            allow = true;
            order_id = some b.id;
            client_order_id = some b.client_order_id;
            nonce = some n;
            local_only = false;
            replayed = false;
            reason = none;
          })

      bundled : ℕ → Action PrepareCancelResult
      bundled n = build_cancel_order_bundle env b user.sodex_account_id n >>= written n

  for_user :
      (env : Env) (u : Option User)
      → Upholds xs (elim u [
        | none ↦ pure (denied user_not_found)
        | some user ↦ prepare_venue_cancel env b user
      ])
  for_user env none = λ db k. k
  for_user env (some user) = prepare_venue_cancel-Upholds env user

  prepare_live_cancel-Upholds :
      (env : Env) (user : ℕ) (s : OrderStatus) → Upholds xs (prepare_live_cancel env user b s)
  unfolding prepare_live_cancel IsCancelOf
  prepare_live_cancel-Upholds env user pending =
      flush_reply (record b { status = cancelled }) _ (refl, inr refl)
  prepare_live_cancel-Upholds env user submitted = λ db k. k
  prepare_live_cancel-Upholds env user acked = λ db k. for_user env (find_user user db) db k
  prepare_live_cancel-Upholds env user partially_filled =
      λ db k. for_user env (find_user user db) db k
  prepare_live_cancel-Upholds env user filled = λ db k. for_user env (find_user user db) db k
  prepare_live_cancel-Upholds env user cancelled = λ db k. for_user env (find_user user db) db k
  prepare_live_cancel-Upholds env user rejected = λ db k. for_user env (find_user user db) db k
  prepare_live_cancel-Upholds env user expired = λ db k. for_user env (find_user user db) db k

  after_cancel_answer-IsCancelOf :
      (o : Order) (a : Answer)
      → o.id ≡ b.id
      → o.status ≡ b.status
      → IsCancelOf b (after_cancel_answer o a)
  unfolding after_cancel_answer IsCancelOf
  after_cancel_answer-IsCancelOf o (items []) i s = (i, inl s)
  after_cancel_answer-IsCancelOf o (items (x ∷ [])) i s = ground arith
  after_cancel_answer-IsCancelOf o (items (x ∷ y ∷ xs)) i s = (i, inl s)
  after_cancel_answer-IsCancelOf o (sodex_auth_error t) i s = (i, inl s)
  after_cancel_answer-IsCancelOf o (sodex_envelope_error t) i s = (i, inl s)
  after_cancel_answer-IsCancelOf o (other_error e) i s = (i, inl s)

  concluded : Order → Answer → Action SubmitResult
  concluded o a =
      flush_order (after_cancel_answer o a) >> pure (cancel_reported (after_cancel_answer o a))

  posted : Env → Order → Text → Text → Action SubmitResult
  posted env o key body =
      raise_if (not (is_known o.venue)) value_error
      >> (send env (cancel_of o key body) >>= concluded o)

  extracted : Env → Order → Text → Action SubmitResult
  extracted env o key =
      lift (extract_params_bytes env.is_action_json (or_empty o.cancel_eip712_payload))
      >>= posted env o key

  dispatch_real_cancel-Upholds :
      (env : Env) (o : Order)
      → o.id ≡ b.id
      → o.status ≡ b.status
      → Upholds xs (dispatch_real_cancel env o)
  unfolding dispatch_real_cancel extracted posted concluded cancel_of
  dispatch_real_cancel-Upholds env o i s =
      Upholds->>= xs (load_user o.user_id)
        (λ u. default_api_key_resolver u o.venue >>= extracted env o)
        (load_user-Upholds xs o.user_id)
        λ u.
          Upholds->>= xs (default_api_key_resolver u o.venue) (extracted env o)
            (default_api_key_resolver-Upholds xs u o.venue)
            λ key.
              Upholds->>= xs
                (lift (extract_params_bytes env.is_action_json (or_empty o.cancel_eip712_payload)))
                (posted env o key) (λ db k. k)
                λ body.
                  Upholds->> xs (raise_if (not (is_known o.venue)) value_error)
                    (send env (cancel_of o key body) >>= concluded o) (λ db k. k)
                    (Upholds->>= xs (send env (cancel_of o key body)) (concluded o)
                      (send-Upholds xs env (cancel_of o key body))
                      λ a.
                        flush_reply (after_cancel_answer o a) _
                          (after_cancel_answer-IsCancelOf o a i s))

  send_cancel-Upholds :
      (env : Env) (o : Order) → o.id ≡ b.id → o.status ≡ b.status → Upholds xs (send_cancel env o)
  unfolding send_cancel IsCancelOf
  send_cancel-Upholds env o i s =
      Upholds-if xs o.paper_trade _ _
        (flush_reply (record o { status = cancelled }) _ (i, inr refl))
        (dispatch_real_cancel-Upholds env o i s)

  submit_prepared_cancel-Upholds :
      (env : Env) (signature : Text) → Upholds xs (submit_prepared_cancel env b signature)
  unfolding submit_prepared_cancel IsCancelOf
  submit_prepared_cancel-Upholds env signature =
      Upholds-if xs (is_blank b.cancel_eip712_payload || is_none b.cancel_nonce) _ _ (λ db k. k)
        (Upholds-if xs (not (is_signature signature)) _ _
          (flush_reply (cancel_failed b (codes "invalid_signature_format")) _ (refl, inl refl))
          (Upholds->> xs (flush_order (cancel_signed env b signature))
            (send_cancel env (cancel_signed env b signature))
            (flush_order-Upholds xs b (cancel_signed env b signature) only
              (from_live b (cancel_signed env b signature) live (refl, inl refl)))
            (send_cancel-Upholds env (cancel_signed env b signature) refl refl)))

module _ (xs : List Order) (env : Env) (o : Order) (only : OnlyRow o xs) where
  prepare_own_cancel-Upholds : (user : ℕ) → Upholds xs (prepare_own_cancel env user o)
  unfolding prepare_own_cancel
  prepare_own_cancel-Upholds user =
      Upholds-test xs (is_terminal o.status) _ _ (λ _ db k. k)
        λ live. prepare_live_cancel-Upholds xs o only live env user o.status

  prepare_loaded-Upholds : (user : ℕ) → Upholds xs (prepare_loaded env user o)
  unfolding prepare_loaded
  prepare_loaded-Upholds user =
      Upholds-if xs (option_eq o.user_id (some user)) _ _ (prepare_own_cancel-Upholds user)
        λ db k. k

  submit_cancel_loaded-Upholds :
      (signature : Text) → Upholds xs (submit_cancel_loaded env signature o)
  unfolding submit_cancel_loaded
  submit_cancel_loaded-Upholds signature =
      Upholds-test xs (is_terminal o.status) _ _ (λ _ db k. k)
        λ live.
          Upholds-if xs (not (is_none o.cancel_eip712_signature)) _ _ (λ db k. k)
            (submit_prepared_cancel-Upholds xs o only live env (lower signature))

pub prepare_cancel-Kept :
    (env : Env) (user id : ℕ) (db : Db)
    → Kept db.orders db
    → Kept db.orders (prepare_cancel env user id db).1
unfolding prepare_cancel
prepare_cancel-Kept env user id db k =
    loaded-Kept id (prepare_loaded env user) db k
      λ o only. prepare_loaded-Upholds db.orders env o only user

pub submit_cancel-Kept :
    (env : Env) (id : ℕ) (signature : Text) (db : Db)
    → Kept db.orders db
    → Kept db.orders (submit_cancel env id signature db).1
unfolding submit_cancel
submit_cancel-Kept env id signature db k =
    loaded-Kept id (submit_cancel_loaded env signature) db k
      λ o only. submit_cancel_loaded-Upholds db.orders env o only signature

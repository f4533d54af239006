-- ===== src/Lib.antt =====
-- etfpulse: the execution surface of the backend, which prepares, checks, submits and cancels
-- orders on a trading venue and tracks the positions that their fills make, and the delivery of
-- signals to their recipients.
--
-- The parts and their files. Models (backend/etfpulse/models): orders, positions, users and
-- circuit breakers as records, the database session as a record of tables that an action
-- threads, and the CHECK constraints of orders. An action returns a result or raises, and keeps
-- the state that it had reached; the route that called it rolls back. Decimal: Python's decimal
-- arithmetic with 28 significant digits. Risk (backend/etfpulse/pipeline/execution/risk.py):
-- check_order as a list of gates, where the first denial decides; find_active_breaker_trigger,
-- count_open_orders, sum_notional and compute_usage are its queries. Breaker
-- (backend/etfpulse/pipeline/circuit_breaker.py): record, find_active, resolve and
-- count_active. Nonce (backend/etfpulse/pipeline/execution/nonce.py): next_nonce_for_user.
-- Positions (backend/etfpulse/pipeline/execution/positions_spot.py and positions_perps.py): the
-- fills of the two venues; Positions/Book is the abstract book of holdings that they implement.
-- Execution (backend/etfpulse/pipeline/execution/pipeline.py, paper.py and bytes_helpers.py):
-- submit_new, prepare_cancel and submit_cancel with the steps that they share;
-- Execution/Prepare has prepare_new with the insert of the order and its three attempts.
--
-- Reconcile (backend/etfpulse/pipeline/reconcile.py, and the reconciliation of positions in
-- positions_spot.py and positions_perps.py): reconcile_open_orders from the users down to one
-- order against one row of the venue, with the summary that it counts in. Reaper
-- (backend/etfpulse/pipeline/reapers.py and boot_recovery.py): the bulk updates and the count
-- at boot. Delivery (backend/etfpulse/pipeline/delivery.py and the job
-- _fan_out_pending_with_session of pipeline/scheduler.py): fan_out_signal with its recipients,
-- and send_pending_deliveries, each answer of Telegram a value; Delivery/Trace is
-- get_signal_delivery_trace of backend/etfpulse/api/routes/admin.py, for a signal that exists.
-- Delivery/Steps has the two with the reapers as one step relation. Symbols
-- (backend/etfpulse/pipeline/symbols_refresh.py): extract_asset_from_symbol_name. Life: the
-- four calls of the orchestrator that return, the sweep and the reaper of orders as one step
-- relation, with the rank of models/order.py.
--
-- The parts interact as in the code: the sweep folds fills into Positions through the calls
-- that paper fills use; a fill of a paper order goes through Execution to Positions;
-- prepare_cancel takes its nonce from Nonce; Risk reads the breakers and the orders.
--
-- The clients of the venue are one function of the writes so far and of the new write, which
-- may answer with items or raise. The builders of signed payloads and the JSON parser are
-- functions too. These are fields of the environment of a call, with no assumption on them; so
-- are Telegram's answer to a message after those before it, the three reads of the venue and
-- Decimal of a text for the sweep, each read an answer or an exception by wallet address. A
-- column or field that holds any string is an enumeration with one more constructor for the
-- strings that are no value.
--
-- Bounds. A decimal is a natural number of units of 10^-46, which holds products of a size (18
-- digits after the point) and a price (8 digits) exactly; every test on a negative value takes
-- the branch of zero. The count of excess digits has fuel 256, for coefficients below 10^284.
-- Printed integers have fuel 40. Times count microseconds; the clock of the database and that
-- of the worker are one. A worker's retries are bounded by the setting delivery_max_attempts.
--
-- Not modelled: rounding to the columns when a row is stored, the time stamps that the database
-- sets on an update, an average whose quantized value needs more than 28 digits, the encoding
-- of a payload to bytes (a text is its code points), the order of rows that a query without
-- ORDER BY gives (the table's order is taken), logs and the texts for people, the row lock and
-- other concurrency (calls are sequential), numbers of the venue that are not finite, and the
-- rest of the backend (the texts and keyboards of messages, an exception inside the job of the
-- fan-out, detectors, statistics, the other routes of the API, the bot).
pub mod Base
pub mod Decimal
pub mod Models
pub mod Positions
pub mod Breaker
pub mod Symbols
pub mod Nonce
pub mod Reconcile
pub mod Delivery
pub mod Reaper
pub mod Life
pub mod Risk
pub mod Execution
mod Tests

-- ===== src/Lib.antt =====
-- The execution path of the ALM trading system, from a request for a DEMO order to the verdict on it.
--
-- A request passes a chain of twelve gates. One gate is the execution guard, which checks the
-- configuration, the account, the market and the order; another is the kill switch, which the guard,
-- the emergency controller and the circuit breaker share. An approved request waits in a queue for a
-- human, or is sent by automation through the order client, which asks for the guard's approval; its
-- lifecycle records how far it came, and the reconciler compares the result with the request and the
-- position. The trading service joins these parts: it proposes, waits for a human or submits, transmits,
-- reconciles, and stops execution when a reconciliation fails. Beside it stand the sizing of a position,
-- the exit engine of an open one, and the lifecycle of the observations that feed the data set.
--
-- Files and the sources they model:
--   KillSwitch           execution/mt5/kill_switch.py: the flag and its history; `engage`, `release`
--   Lifecycle            execution/demo/states.py: the states of an order and the moves between them
--   Settings             config/settings.py: the settings the path reads, the start-up check
--   Order                execution/mt5/order_request.py, execution/demo/order.py: the requests
--   Session              features/session/session_engine.py: the session of a moment
--   Account              execution/mt5/account.py, observation/demo_account.py: the account's verdict
--   Guard                execution/mt5/execution_guard.py: the checks; Guard/Quotes those on prices;
--                        Guard/Evaluate the verdict
--   Mode                 execution/demo/modes.py: what a configured mode permits
--   Limits               execution/demo/limits.py: the hard limits
--   Idempotency          execution/demo/idempotency.py: claims of identifiers
--   Daily                execution/demo/daily_risk.py: the trading day and its budget
--   Breaker              validation/circuit_breaker.py; Breaker/Trip its operations
--   Emergency            execution/demo/emergency.py: the conditions and the shutdown
--   Gates                execution/demo/gates.py: the data; Gates/Budget and Gates/Setup the gates,
--                        Gates/Chain the verdict
--   Approval             execution/demo/approval.py: the queue; Approval/Queue its operations
--   Client               execution/mt5/execution_client.py, order_result.py: Client/Send the sending
--                        of an order
--   Reconcile            execution/mt5/reconciliation.py
--   Service              execution/demo/service.py: the state; Service/Context the context of a request,
--                        Service/Propose, Submit, Transmit and Shutdown its calls; Service/Once, Sends,
--                        Queued, Proposed, Admitted, Run the proof that one request is sent once,
--                        Service/Wire and Protected further proofs
--   Sizing               execution/demo/sizing.py; Sizing/Calculate the calculation
--   Observation          observation/lifecycle.py; Observation/Checkpoint and Exit
--                        observation/time_exit.py
--   Exits                execution/demo/exit_engine.py
--   Evidence             validation/gates.py; Evidence/Within and Eligible when they pass
--   Paper                paper/models.py, state_machine.py; Paper/Risk, Execution and Trading paper/risk.py,
--                        execution.py and service.py; Paper/Held and Runs the states of positions
--   Base, Float          what the others share; Examples runs the theorems on concrete inputs
--
-- State is a record that an operation takes and returns; an operation that can raise returns a
-- `Result`. What two components share, the kill switch, is passed along. A method of Python keeps its
-- name; a property of a class is a function of its record. Stringly codes are texts.
--
-- Python's floats are an abstract type with the operations that the code uses (Float), so that the
-- theorems hold for any rounding and for NaN; where a theorem needs the order of numbers it takes the
-- laws of IEEE 754 as an argument (`IsOrdered`), and Float/Nano is an arithmetic that meets them.
-- Counts are natural numbers and moments whole seconds. Texts are ASCII: `upper`, `lower` and
-- `strip` treat no other letters. Loops are recursion on lists; the one search with fuel, for the next
-- checkpoint, takes 23 steps, since an hour 0 comes within them and every step divides it.
--
-- Parameters, since their code is not in the repository: the clock, the conversion of time zones, the
-- answers of the trading terminal. The answers of the database to the registry of identifiers, which
-- database/repositories/execution.py asks through a library, are a parameter too: a row that the
-- service or another process saves is seen through a step that changes the store.
--
-- Python raises where the model has no error: on a division by zero, which the arithmetic answers (the
-- summed quantity of a paper position is one, whose parts an entry refuses at zero or below); on
-- rounding a number of volume steps in the guard that is infinite or NaN; and on a paper quote whose
-- bid or ask is there and None, where the model only has quotes that lack one.
--
-- Not modelled: free-form details, alerts, audit and database rows, the journal, the shadow recorder and
-- the position monitor, which nothing modelled reads; the reading of configuration files; the back test
-- and its strategies and the research registry, which are planned; features and models
-- over data frames and numeric libraries; data access, the interface and the dashboard, which are input
-- and output.
pub mod Base
pub mod Float
pub mod KillSwitch
pub mod Lifecycle
pub mod Settings
pub mod Order
pub mod Session
pub mod Account
pub mod Guard
pub mod Mode
pub mod Limits
pub mod Idempotency
pub mod Daily
pub mod Breaker
pub mod Emergency
pub mod Gates
pub mod Approval
pub mod Client
pub mod Paper
pub mod Reconcile
pub mod Service
pub mod Sizing
pub mod Observation
pub mod Evidence
pub mod Exits
pub mod Examples

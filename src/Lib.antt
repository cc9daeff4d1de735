-- ===== src/Lib.antt =====
-- The API of mt5-ai-trading: the life of a trade proposal from the owner's decision to the orders,
-- fills and positions of its execution and their end, as the services of apps/api/src/services and
-- the repositories of apps/api/src/db/repositories carry it out, and what runs beside it on timers:
-- the schedulers of the hourly and the M5 candles, the risk engine of MT5 plans, and the watchers
-- of shadow trades and AI plans.
--
-- Prelude holds Boolean tests and list helpers over the native numbers. Numeric is the decimal
-- arithmetic of decimal.js, a parameter of every definition that computes with prices;
-- Numeric.Whole is an instance of it with whole numbers, which the runs use. Identifiers (UUIDs)
-- and times (milliseconds) are natural numbers.
--
-- Domain has the enumerations and row types of apps/api/src/db/types.ts (Domain.Status,
-- Domain.Rows) and the messages of apps/api/src/services/trading-engine-client.ts (Domain.Broker).
--
-- Store has the tables as lists of rows in order of insertion, the calls made to the broker, the
-- clock, and the workflow monad: an action takes a World and returns a result or an error with the
-- new World. `with_transaction` is withTransaction: an action that throws restores the tables and
-- keeps the calls. Store.Executions, Orders, OpenPositions, Fills, Positions, Snapshots, Proposals,
-- Approvals and Audit are the repository files of these names, with the constraints of
-- database/migrations that can refuse a row. What a column NUMERIC(18,8) gives back of a text is
-- the parameter `numeric` of Numeric, and a value that is too large for it is not modelled. A
-- workflow runs alone from BEGIN to COMMIT: the row locks of SELECT ... FOR UPDATE and concurrent
-- transactions are not modelled. Store.Tables has the laws of the row operations. `Engine` is the
-- trading engine behind its client: any function from the calls so far to a reply.
--
-- Lifecycle is apps/api/src/services/proposal-state-machine.ts, Lifecycle.Graph its trails, and
-- Lifecycle.Expiry the sweep expireOpenProposals against it.
--
-- Execution is apps/api/src/services/trade-execution-service.ts: Accounting has
-- calculatePositionAccounting, averageFillPrice and filledQuantity; Portfolio
-- calculatePortfolioPnl, liveMarketData and mergeLivePosition; Messages the broker's statuses and
-- the request of an order; Session the clock of intraday-decision-service.ts and
-- hourly-decision-service.ts; Records the rows that a workflow writes; Submit
-- executeApprovedProposal, split where the code branches; Exit recordApprovedBracketExit; Close
-- closeIntradayPosition and closeHourlyPosition; Reconcile the polls reconcileBracketOrders,
-- reconcileIntradayTimeExits and reconcileHourlyTimeExits, with their theorems in Reconcile.Bounds,
-- Brackets, Due, Once and Trace on the lemmas of Sent and Rows. Quiet holds what sends no order,
-- Bounds the theorems on the accounting, Safety, Outcome, Cancelled, Ready and Failed those on
-- executeApprovedProposal, Exits those on recordApprovedBracketExit, and Repeat that on
-- persistFills.
--
-- Approval is the part of apps/api/src/services/trade-proposal-service.ts that decides on a
-- proposal: Risk has the questions about the risk, their combination and
-- maybeAutoDisableKillSwitchOnDailyLoss; Decide approveProposal, Cancel cancelProposal and Reject
-- rejectProposal. The phase risk controls (phase22RiskControls to phase27RiskControls, with the
-- analyses that they call) and the verdict of the risk engine are the parameter `RiskDesk`. Run,
-- Stored and Halt hold what the theorems of Status, Halt and Late rest on.
--
-- Decision is apps/api/src/services/trading-ai/decision-policy.ts, and Decision.Actions its
-- theorem.
--
-- Hourly is a round of apps/api/src/services/hourly-scheduler.ts (Tick) on the table of
-- apps/api/src/db/repositories/hourly-candle-processing.ts (Candles). What it calls, the bars of a
-- symbol and createHourlyDecisionAndProposal, is the parameter `Desk`. Once, Counts and Latest hold
-- its theorems.
--
-- Mt5Risk is apps/api/src/services/mt5-risk-engine.ts: Symbol toRiskSymbolInfo, Sizing the volume
-- and its margin, Input and Engine evaluateMt5Risk with its rules and snapshot; Pass, Tradable and
-- Volume its theorems.
--
-- Shadow is apps/api/src/services/trading-ai/shadow-trade-watcher.ts: Bars the candles, Trades the
-- rows of shadow_trades, Outcomes how a candle ends a trade, Watcher a tick; First, Level and Ticks
-- its theorems, and Graph the state machine of a trade. Here and in AiPlans columns keep the value
-- as computed: the rounding of NUMERIC is not modelled.
--
-- AiPlans is apps/api/src/services/trading-ai/ai-trade-plan-watcher.ts with plan-comment.ts: Plans
-- the rows of ai_trade_plans and trade_outcomes, Broker what MT5 lists, Watcher the four sweeps of
-- a tick, one after the other. Evidence says what is found for a plan, Settle what the updates do
-- to its row; Stuck and Unreachable hold the theorems.
--
-- M5Cycle is apps/api/src/services/trading-ai/m5-cycle-scheduler.ts: Scheduler the tick, with the
-- call of runM5OpportunityScan as the parameter `Scan`, begin_tick and end_tick its halves around
-- the await. Once lets any number of scans run beside each other and settle in any order; Again is
-- about ticks that nothing interrupts, Overlap about a candle that two scans answer.
--
-- In Mt5Risk, Shadow and AiPlans the decimals stand for JavaScript numbers.
--
-- Examples has the rows and engines of the runs in the modules Tests and BookTests.
--
-- Every loop is structural recursion over a list, so no fuel is needed. Not modelled: the creation
-- of proposals and plans, the phase risk controls, getLivePortfolioView, the timers, failures of
-- the database, HTTP transport, authentication, the web application, the Python trading engine, the
-- AI analysis and its scores, the watcher of the MT5 entry plans and the demo lab.
pub mod Prelude
pub mod Numeric
pub mod Domain
pub mod Store
pub mod Lifecycle
pub mod Execution
pub mod Examples
pub mod Approval
pub mod Decision
pub mod Hourly
pub mod Mt5Risk
pub mod Shadow
pub mod AiPlans
pub mod M5Cycle

-- ===== src/Lib.antt =====
-- librae: a trading library whose backtest and live runtime share one executor. This library models
-- the parts that keep the books, the orders that wait, and the queues of the live runtime.
--
-- Core is librae/core. Core/Number is the arithmetic of Python's float, an interface of which the
-- theorems use only the named facts that they list; Core/Number/Int is an instance to evaluate on.
-- Core/Costs is `CostModel` of cost_model.py: its costs, margin and construction checks.
-- Core/Positions holds the positions, events and trades of executor.py and strategy.py with the
-- functions on one position; Core/Positions/Close is `build_close_event` and `calc_equity`. Core/Fills
-- is `apply_execution_fill`, cut at its branches: `settle` chooses, `enter` opens or adds, `leave`
-- reduces or closes, of the parts in Core/Fills/Parts. Core/Bars is what one bar says of an order
-- (`order_side_is_tradable`, `resolve_stop_exit`, `resolve_fill_price`), Core/Liquidity how much one
-- bar and the cash allow (`_volume_fill_limit`, `_size_position`, `simulate_fill`), and Core/Stops the
-- loops of `check_stop_targets` and, in Core/Stops/Forced, of `liquidate_all`, with the dicts and
-- lists that they change as the fields of one record. Core/Orders is `execute_order_intents`:
-- Core/Orders/Entry the size and the tests of one entry (`_try_fill`), Core/Orders/Normalize the
-- normalization, Core/Orders/Opening, Core/Orders/Closing and Core/Orders/Execute the steps and the
-- loop over the priced intents, and Core/Orders/Groups the groups that fill as one over staged copies.
-- Core/Rebalance is `execute_portfolio_weights`, with the orders of a target in Core/Rebalance/Targets
-- and the scaling to the cash in Core/Rebalance/Scaling; Core/Rebalance/Cancel is
-- `_cancel_rebalance_symbols`, with the detail of its events as a record. Core/Financing is
-- `attribute_financing_to_closes` of financing.py and Core/Decisions is `validate_strategy_decision`
-- with the lifetimes that the venues take, and Core/Exposure is `validate_exposure_transition` of
-- executor.py, the limits on the gross and the net exposure. Core/Readiness is readiness.py, over a
-- calendar that is an interface. Core/Events is `RuntimeEvent` and `coalesce_runtime_events`.
-- Core/Intents and Core/Pending are the decisions of a strategy, and the partition and merge of those
-- that wait.
--
-- Live is librae/live. Live/Resting is resting_orders.py, Live/Alerts is persistent_alerts.py and
-- Live/Audit is ohlcv_audit.py. Live/State is the documents of state.py for pending decisions and live
-- rebalances, which `float`, `int` and `fromisoformat` read as parameters, and Live/Halts is
-- `evaluate_reset_readiness` of halt_recovery.py. Backtest/Envelopes is the decision envelopes of
-- librae/backtest/engine.py, which give the same lifetimes to the orders of a backtest.
--
-- Base has the shared names, Python's dict as an association list, and errors as values.
--
-- Instants are numbers of microseconds, symbols are texts, and prices and quantities are of any type,
-- with an arithmetic where the code computes. A mutated object is replaced in the dict that holds it.
-- A raise is an error result. Sessions, calendars, sinks and callbacks are parameters. The drain of
-- the audit queue has fuel for the rows that are queued, which is enough since each call takes one at
-- least; `_size_position` and `_scale_additions_to_cash` halve sixty times, as the code does.
--
-- Not modelled: the slices of portfolio rebalances that carry a residual, the live engine, the rest of
-- its state store and halts, configuration, market data in pandas, and the brokers, but for their
-- tables of lifetimes, the database and the application, which are input and output. Of the arithmetic
-- of floats, rounding is not computed.
pub mod Base
pub mod Core
pub mod Live
pub mod Backtest

-- ===== src/Lib.antt =====
-- GlassBox, an options trader that explains each of its decisions: the parts of it that decide
-- whether money is put at risk, how much, and when it is taken off again.
--
-- The parts and how they interact:
--   * News is filtered before the language model reads it (glassbox/signal/filter.py, Filter):
--     Filter/Words has the tokens, Filter/News the tests, and what is remembered for each symbol.
--   * A signal becomes a view: the edge test (glassbox/signal/edge.py, Edge) compares the move that
--     the analyst expects with the one that the options imply, and names the structures to trade.
--   * A structure is a list of option legs (glassbox/structures.py, Structures), whose worst case is
--     computed and whose short legs must be covered. Structures/Payoff is the specification: what
--     the legs are worth at expiry.
--   * The strikes of a structure are chosen from the quotes of a chain (glassbox/chain.py, Selection):
--     Selection/Quotes has the sides of a chain, the width of a wing and the choice of one strike,
--     Selection/Build the structure of each kind and the cost of a round trip.
--   * Sizing (glassbox/sizing.py, Sizing) turns the worst case, the account and the context into a
--     number of spreads.
--   * The gate (glassbox/gate.py, Gate) runs every check on the proposal; it reads the book
--     (glassbox/portfolio.py, Portfolio), the releases (glassbox/macro.py, Macro) and the corporate
--     actions (glassbox/data/corporate.py, Corporate). Gate/Admission says what each check means.
--   * An open position is held or closed by the first of ten barriers (glassbox/manage.py, Manage).
--   * The supervisor (glassbox/supervisor/guards.py, Guards, and glassbox/supervisor/run.py,
--     Supervisor) watches the account, latches a halt and flattens the book. The reconciliation
--     (glassbox/reconcile.py, Reconcile) compares the books with the broker, and latches and clears
--     halts too; Reconcile/Nets has the sums that its dicts stand for. Both write the rows of
--     glassbox/store.py that SystemState holds.
--   * Calls of the broker go through a circuit breaker (glassbox/execution/breaker.py, Breaker).
--   * Orders go to the broker by the router (glassbox/execution/router.py, Execution/Router), under ids
--     that are the same for the same attempt (glassbox/execution/ids.py, Execution/Ids). The lifecycle
--     (glassbox/execution/lifecycle.py, Execution/Lifecycle) polls them each tick: it opens and closes
--     the positions, walks an entry's price up a ladder, makes a close cheaper until it fills, and
--     sweeps up positions whose order ended unseen. Execution/Lifecycle/Steps has the
--     steps that a pass takes on the store. All of them write the tables of glassbox/store.py, which
--     Store holds.
--   * After an emergency flatten the repair (glassbox/repair.py, Repair) prices the exits from the
--     broker's fills and closes the positions in the store.
--   * The audit log (glassbox/audit.py, Audit) chains its records by their hashes.
--   * The scheduler (glassbox/scheduler.py, Scheduler) runs the jobs of a market day.
--   * Config has the fields of glassbox/config.py that these parts read, and the values of
--     config/default.yaml. Clock has instants and spans of time. Tests has runs.
--
-- How the model stands for the code:
--   * A float is a decimal with six places (Prelude/Decimal): sums, differences and comparisons are
--     exact, a product or a quotient is rounded down to a millionth. There is no NaN and no infinity.
--     A Python integer is a natural number, or an integer where the code lets it be negative.
--   * Symbols, tickers, ids and dates are only compared and ordered, so numbers stand for them.
--   * Texts for people are left out, or are one constructor for each message. The headlines are lists of
--     code points, for the filter reads them.
--   * An exception is a value: a result, an option, or an outcome of its own.
--   * What is not in the repository is an argument: the broker's client (Supervisor.Client, and
--     Execution/Router's Broker), whose calls may raise, the clocks' readings, the next session's open, the
--     lower case of a text (Filter.Words.tokenise), the text of an instant (Repair), JSON and SHA-256
--     (Audit.Format, and the digest of Execution/Ids). The store's tables are records that are passed
--     on; the audit log is the list of its events, newest first, but for Audit itself.
--   * The only bounded loop is that of flatten_all, whose bound is the code's own number of attempts.
--
-- Not modelled: the regime and the draws of the bandit, the predictions, the pipeline of the trader; a
-- flatten deadline without an offset; and the market data, the language model, the reports and the
-- operator's scripts, which are input and output.
pub mod Prelude
pub mod Clock
pub mod Config
pub mod Structures
pub mod Macro
pub mod Corporate
pub mod Portfolio
pub mod Gate
pub mod SystemState
pub mod Guards
pub mod Breaker
pub mod Sizing
pub mod Manage
pub mod Store
pub mod Reconcile
pub mod Execution
pub mod Repair
pub mod Audit
pub mod Selection
pub mod Filter
pub mod Scheduler
pub mod Supervisor
pub mod Edge
pub mod Tests

-- ===== src/Tests.antt =====
-- Runs of the modelled code on concrete inputs, and the theorems at such inputs.
mod Spreads
mod Accounts
mod Sizes
mod Exits
mod Ledgers
mod Signals
mod Gates
mod Calendars
mod Orders
mod Repairs
mod Chains
mod Headlines
mod Jobs

-- ===== src/Tests.antt =====
-- Runs of the model, and each theorem at work on one of them.
mod Daemons
mod Databases
mod Keys
mod Views
mod Sessions
mod Contracts
mod Sequencing
mod Envelopes
mod Play
mod Trading
mod Rules

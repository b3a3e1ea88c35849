-- ===== src/Tests.antt =====
-- Runs of the model at concrete inputs, and each theorem at an input that meets its hypotheses.
mod Numbers
mod Breakers
mod Retries
mod Health
mod Threads
mod Messages
mod Requests
mod Migrations
mod Loads
mod Configs
mod Caches
mod Seeds
mod Pools
mod Commands
mod Servers
mod Runs
mod CommandLines

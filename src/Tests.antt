-- ===== src/Tests.antt =====
-- Runs of the modelled code on the sample rows, and the theorems at concrete arguments.
mod Rows
mod Races
mod Handlers
mod Numbers
mod Sessions
mod Calls
mod Tenants
mod Agents
mod Api
mod Entry
mod Messages

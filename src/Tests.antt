-- ===== src/Tests.antt =====
-- The theorems at work on small databases.
mod Data
mod Schedules
mod Policies
mod Airings
mod Ingest
mod Delivery
mod Messages
mod Readying
mod Logins
mod Fetches
mod Contents
mod OnAir
mod Keying
mod Responses
mod Transfers

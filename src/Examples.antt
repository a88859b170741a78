-- ===== src/Examples.antt =====
-- The theorems at concrete inputs, and runs of the code.
mod Connections
mod Identifiers
mod World
mod Chats
mod Accounts
mod Sessions
mod Schedules
mod Requests
mod Processes
mod Histories
mod Deletions
mod Afterwards
mod Messages
mod Deliveries

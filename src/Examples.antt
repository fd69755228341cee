-- ===== src/Examples.antt =====
-- The theorems at concrete inputs, a module for each part.
mod Storage
mod Log
mod Replication
mod Protocol
mod Coordinator
mod Group
mod Server
mod Broker
mod Offsets
mod Client

-- ===== src/Tests.antt =====
-- The theorems at concrete inputs, and runs of the code.
mod Storage
mod Variables
mod Clients
mod Deleting
mod Observing
mod Vstp
mod Server
mod Dump
mod Names
mod Confs
mod NamedLock
mod Startup
mod Http
mod Client
mod Across
mod Help
mod Queue
mod Logger
mod Stream

-- ===== src/Examples.antt =====
-- Tests, and the theorems at concrete inputs.
mod Routes
mod Hosts
mod Codecs
mod Messages
mod Kernels
mod Bonds
mod Sessions
mod Commands
mod Runs
mod Clients
mod Cleanups
mod Spoofers
mod Programs
mod Restarts
mod Relays

-- ===== src/Tests.antt =====
-- Instances of the theorems at concrete inputs, and tests of the definitions.
mod Server
mod Rpc
mod Journeys
mod Core
mod Calls
mod Lua
mod Broadcast
mod Lifecycle
mod Json
mod Marshal
mod Values
mod Modules
mod Http

-- ===== src/Tests.antt =====
-- Runs on concrete inputs: a small host, and examples for the theorems.
mod Toy
mod Agents
mod Network
mod Sessions
mod Heartbeat
mod Server
mod Clients
mod Writer
mod Backend
mod Calls
mod Logging
mod Config
mod App
mod Machine
mod Service
mod Stopping
mod Main
mod Requests
mod Connecting

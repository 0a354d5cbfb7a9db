-- ===== src/Tests.antt =====
-- Runs at concrete inputs, and the theorems applied at them.
mod Packets
mod Filters
mod Subscriptions
mod Serving
mod Clients
mod Requests
mod Retries
mod Reconnects
mod Dialling

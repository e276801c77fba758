-- ===== src/Tests.antt =====
-- Runs at concrete inputs, and the theorems applied at them.
mod Config
mod State
mod Editor
mod Daemon
mod Serving
mod Packets
mod Keys
mod Bar
mod Files
mod RoundTrip
mod Client

-- ===== src/Tests.antt =====
-- The theorems at concrete inputs.
mod Pipe
mod Reports
mod Messages
mod Streams
mod Handshakes
mod Heartbeats
mod Managers
mod Jobs
mod Nodes
mod Loops
mod Endpoints
mod Datagrams
mod Files
mod Calls
mod Forwards
mod Controls
mod Pipelines
mod Trust
mod Relays
mod Starts
mod Stores
mod Uploads
mod Downloads
mod Proxies

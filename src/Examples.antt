-- ===== src/Examples.antt =====
-- The theorems at concrete inputs, and runs of the definitions.
mod Codec
mod Failovers
mod Checks
mod Providers
mod Endpoints
mod Messages
mod Connections
mod Nodes
mod Servers
mod Proxying
mod Sockets
mod Proxies
mod Logs
mod Starts
mod Configs

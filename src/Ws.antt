-- ===== src/Ws.antt =====
-- internal/ws: the WebSocket proxy.
pub mod Tracker
pub mod Client
pub mod Pump
pub mod Proxy
pub mod Dial
pub mod Handler

-- ===== src/Osc.antt =====
-- abletonosc/osc_server.py: the OSC server, its dispatch of messages and the loop over its socket.
pub mod Pattern
pub mod Server
mod Examples

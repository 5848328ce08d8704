-- ===== src/Transport.antt =====
-- `Transport` of paramiko/transport.py: one end of a connection. The children model the negotiation
-- of algorithms and the loop of its thread, and prove what the two ends agree on, and what a server
-- does for clients that are not authenticated.
pub mod State
pub mod Negotiation
pub mod Names
pub mod Loop
pub mod Channels
pub mod Dispatch
pub mod Gate
pub mod Modes
pub mod Authorization
pub mod Reached
pub mod Fresh
pub mod Unexpected
pub mod Signals
pub mod Agreement
pub mod Peers
pub mod Handshake
pub mod Strict
pub mod GroupExchange

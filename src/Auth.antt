-- ===== src/Auth.antt =====
-- `AuthHandler` of paramiko/auth_handler.py. State is the record, the server object of the
-- application and the messages; Server is the side that authenticates a client; Run is a sequence
-- of messages to a server. The others prove what the server grants, and how often it refuses.
pub mod State
pub mod Server
pub mod Granted
pub mod Run
pub mod Attempts
pub mod Limits
pub mod Sound

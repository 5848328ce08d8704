-- ===== src/Channel.antt =====
-- `Channel` of paramiko/channel.py: the window accounting, end of file and closing of one channel.
-- A method that holds the channel's lock is a function of the state. What it asks of the transport
-- is a list of effects, in order; they are carried out after the lock is released. A wait on a
-- condition is a value, and the method's `_woken` part runs when the wait ends.
pub mod State
pub mod Sending
pub mod Receiving
pub mod Closing
pub mod Window
pub mod Run
pub mod Conserved
pub mod Order
pub mod SendAll

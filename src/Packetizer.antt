-- ===== src/Packetizer.antt =====
-- `Packetizer` of paramiko/packet.py: packets on the wire. The children model its state and the
-- switch of ciphers, the building and sending of packets, and the reading of them.
pub mod State
pub mod Sending
pub mod Padding
pub mod Rekey
pub mod Sequence
pub mod Reading
pub mod Stream
pub mod Receiving
pub mod Unpacked
pub mod Unencrypted
pub mod Delivered

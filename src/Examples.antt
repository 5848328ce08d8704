-- ===== src/Examples.antt =====
-- Runs at concrete inputs, and the theorems at inputs that meet their hypotheses.
mod Codec
mod Pipes
mod Transports
mod Packets
mod Logins
mod Rounds
mod Attributes
mod Channels
mod Files
mod Hosts
mod Configs

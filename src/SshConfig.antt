-- ===== src/SshConfig.antt =====
-- `SSHConfig` of paramiko/config.py. The children model the blocks of a file and how they are parsed,
-- which of them apply to a host, and the lookup of its options, and prove which value is found.
pub mod State
pub mod Parsing
pub mod Tokens
pub mod Matching
pub mod Lookup
pub mod Patterns
pub mod FirstValue

-- ===== src/HostKeys.antt =====
-- `HostKeys` of paramiko/hostkeys.py. The children model its entries and their lines, and its lookup
-- and changes, and prove that it is a map from names and kinds of keys to keys.
pub mod Entry
pub mod Table
pub mod Listed
pub mod Added
pub mod RoundTrip

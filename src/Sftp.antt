-- ===== src/Sftp.antt =====
-- The SFTP layer: the attributes of a file, as paramiko/sftp_attr.py packs them.
pub mod Attributes
pub mod Parts
pub mod RoundTrip

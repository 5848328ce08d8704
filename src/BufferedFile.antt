-- ===== src/BufferedFile.antt =====
-- `BufferedFile` of paramiko/file.py: a file over a simpler stream. The children model the state and
-- the modes, reading, reading by lines, and writing, and prove what they make of the stream.
pub mod State
pub mod Reading
pub mod Lines
pub mod Writing
pub mod Exact
pub mod FirstLine
pub mod Limit
pub mod Scanned
pub mod Lined
pub mod Split
pub mod Settled
pub mod Kept
pub mod Delivered

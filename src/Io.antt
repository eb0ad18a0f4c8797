-- ===== src/Io.antt =====
-- src/io.rs: reading and writing MySql's basic formats.
pub mod BufMut
pub mod Write
pub mod ParseBuf
pub mod Lenenc
pub mod Numbers
pub mod RoundTrip
pub mod Checked
pub mod NullStr

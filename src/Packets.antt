-- ===== src/Packets.antt =====
-- src/packets/mod.rs: the packets of the protocol.
pub mod Fields
pub mod BinlogRequest
pub mod Column
pub mod SessionState
pub mod Statements
pub mod Strings
pub mod Sequences
pub mod NullBitmap
pub mod Errors
pub mod OkPacket
pub mod Handshake
pub mod Auth
pub mod Replication
pub mod Gtid

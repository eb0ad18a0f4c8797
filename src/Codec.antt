-- ===== src/Codec.antt =====
-- src/proto/codec/mod.rs: packets as chunks on the wire, plain and compressed.
pub mod Crates
pub mod Chunks
pub mod Outcome
pub mod Slices
pub mod ChunkDecoder
pub mod ChunkSteps
pub mod Plain
pub mod Framed
pub mod Compress
pub mod CompDecoder
pub mod Comp
pub mod PacketCodec
pub mod RoundTrip
pub mod Fragments
pub mod Bounds
pub mod Termination
pub mod Fuel
pub mod Arrivals

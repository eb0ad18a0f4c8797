-- ===== src/Lib.antt =====
-- rust_mysql_common: the parts of the MySql protocol that the client crates share, and what has
-- been proved of them. Paths are the repository's.
--
-- Base holds what all parts share: Boolean tests and lists over native numbers, bit operations,
-- the outcome of fallible code (Base/Result: `ok`, `err`, and `panic` for a Rust panic), bytes and
-- the conversions of integers to bytes, and signed integers with their two's complement words.
--
-- Io models src/io.rs. A `ParseBuf` is the list of the bytes that are left, a method on it a
-- function from this list to a result with the new list (Io/ParseBuf, Io/Lenenc); a method of
-- `BufMutExt` maps what a buffer holds to what it holds afterwards (Io/Write). The `bytes` crate's
-- `BufMut` is a parameter with the behaviour that the crate documents (Io/BufMut), and so are
-- `BytesMut`, `Buf` and the compression of `flate2` in Codec/Crates. The lengths of
-- src/misc/mod.rs stand in Io/Lenenc. The macro `eat_num!` is modelled on a little-endian machine;
-- `usize` has 64 bits.
--
-- Codec models src/proto/codec/mod.rs: `packet_to_chunks` (Codec/Chunks), `ChunkDecoder`
-- (Codec/ChunkDecoder), `PlainPacketCodec` (Codec/Plain), `compress` (Codec/Compress),
-- `CompDecoder` (Codec/CompDecoder), `CompPacketCodec` (Codec/Comp) and `PacketCodec`
-- (Codec/PacketCodec). A call takes a state, the source and the destination and returns all three
-- with an outcome (Codec/Outcome), whose `stuck` says that the fuel of a loop is used up. In both
-- decoders a slice, an index or an advance behind the end of the source is a panic (Codec/Slices);
-- Codec/ChunkSteps has the step of each branch of the chunk decoder. A decoder's calls of itself
-- each use up at least a chunk's header of 4 bytes, so one more than the number of bytes is enough
-- fuel; the loops of `packet_to_chunks` take a byte at least in each round, so the packet's length
-- is enough.
--
-- SyncFramed models src/proto/sync_framed.rs: a stream is the list of what its reads give, and a
-- write is given by its list of results. What a failed write has already sent is not modelled.
-- SyncFramed/Delivery treats packets that arrive in pieces, with what Codec/Fragments and
-- Codec/Arrivals say of decoding a part of the input, and Codec/Fuel of the fuel of such calls.
--
-- NamedParams models `parse_named_params` of src/named_params.rs: the variables of its loop are a
-- record, and an index out of range is a panic. NamedParams/Invariant says which parts of the
-- query the parameters are, NamedParams/Seen what its loop meets, NamedParams/Steps treats each
-- step, NamedParams/Explained the result. Params models `Params::into_positional` of src/params.rs
-- over any type of values, with a `HashMap` as a function from names to optional values.
--
-- Raw models src/misc/raw and the traits of src/proto/mod.rs: a `MyDeserialize` is a record of its
-- size and its reader, `parse` reads a value of a known size from its own bytes. The
-- representations of integers are in Raw/Int and Raw/VarLen (Raw/Unsigned lists those of unsigned
-- integers but `VarLen`), of byte strings in Raw/Text, sequences in Raw/Sequence, constants and
-- flags in Raw/Constant. `VarLen::serialize` is a loop without a bound and stands on fuel, with
-- `none` for a loop that has not been left. The product of a count and a size wraps around, as in
-- a release build. Constants models the enumerations of src/constants.rs, Constants/Flags its bit
-- flags, on which the `bitflags` crate's operations, a parameter, work.
--
-- Packets models src/packets/mod.rs on top of Raw: the commands of replication
-- (Packets/Replication, Packets/Gtid), Ok packets and the session's state in them
-- (Packets/OkPacket), error packets (Packets/Errors), the initial handshake and the request for
-- TLS (Packets/Handshake), authentication plugins and the packets that switch them (Packets/Auth),
-- the definition of a column (Packets/Column), statements and local files (Packets/Statements),
-- the request of src/packets/binlog_request.rs (Packets/BinlogRequest), the changes of
-- src/packets/session_state_change.rs (Packets/SessionState), and null bitmaps
-- (Packets/NullBitmap, with the sides of src/value/mod.rs). A constant header is not kept in the
-- records, since its type has one value. In the length of a handshake's scramble an overflow is a
-- panic, as with overflow checks. Packets/Fields has what its proofs share: a writer that appends
-- given bytes (`Writes`), a parser that reads them back whatever follows (`Reads`) or as the end
-- of a packet (`Ends`), and their compositions, for the strings in Packets/Strings and for
-- sequences in Packets/Sequences.
--
-- Scramble models src/scramble.rs, with the digests of the `sha1` and `sha2` crates and the
-- floating-point expression of `scramble_323` as parameters; `gen_data` in Packets/Auth calls it.
--
-- Not modelled: of src/packets the response to the handshake, the change of the user, the
-- execution of a statement, the text form of a sid; values and rows, the binary log, the RSA code,
-- formatting, the derive macros and the build script. What a failed parser leaves in its buffer is
-- not modelled either.
pub mod Base
pub mod Codec
pub mod Constants
pub mod Io
pub mod NamedParams
pub mod Packets
pub mod Params
pub mod Raw
pub mod Scramble
pub mod SyncFramed
pub mod Tests

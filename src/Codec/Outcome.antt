-- ===== src/Codec/Outcome.antt =====
-- src/proto/codec/error.rs and the outcomes of the codec's operations. An operation returns the state
-- that it leaves, also when it fails.
use rust_mysql_common.Base.Bytes.{Bytes}

pub data PacketCodecError : Type 0 where
  io packet_too_large packets_out_of_sync bad_compressed_packet_header : PacketCodecError

-- `stuck` is no outcome of the program: a loop of the model ran out of fuel.
pub data Outcome (A : Type 0) : Type 0 where
  ok : A → Outcome A
  err : PacketCodecError → Outcome A
  panic stuck : Outcome A

-- The decoder's state `S`, the buffers `src` and `dst`, and the outcome.
pub record Step (S A : Type 0) : Type 0 where
  pub state : S
  pub src : Bytes
  pub dst : Bytes
  pub outcome : Outcome A

-- ===== src/SyncFramed.antt =====
-- src/proto/sync_framed.rs: `MySyncFramed`, packets over a byte stream. The stream is what its reads
-- give, in order; when these are used up it is at its end. The bytes written are collected.
pub mod Delivery
use rust_mysql_common.Base.{Bool, true, false, List, [], ◌∷◌, ◌++◌}
use rust_mysql_common.Base.Bytes.{Bytes}
use rust_mysql_common.Codec.Crates.{BytesMut, Buf, Zlib}
use rust_mysql_common.Codec.Outcome.{Outcome, ok, err, io}
use rust_mysql_common.Codec.Plain.{is_empty}
use rust_mysql_common.Codec.PacketCodec.{PacketCodec, default_codec, decode, encode}

-- What one `Read::read` gives: bytes (none at the end of the stream), or an error.
pub data ReadEvent : Type 0 where
  received : Bytes → ReadEvent
  read_interrupted : ReadEvent
  read_failed : ReadEvent

-- What one `Write::write_all` or `flush` gives.
pub data WriteEvent : Type 0 where
  done : WriteEvent
  write_interrupted : WriteEvent
  write_failed : WriteEvent

pub record MySyncFramed (Level : Type 0) : Type 0 where
  pub eof : Bool
  pub in_buf : Bytes
  pub out_buf : Bytes
  pub codec : PacketCodec Level
  pub stream : List ReadEvent

unfoldable pub new : {Level : Type 0} → List ReadEvent → MySyncFramed Level
new stream = record {
  eof = false;
  in_buf = [];
  out_buf = [];
  codec = default_codec;
  stream = stream;
}

-- The state, `dst` and the outcome of a call.
pub record Received (Level : Type 0) : Type 0 where
  pub framed : MySyncFramed Level
  pub dst : Bytes
  pub outcome : Outcome Bool

module _ (M : BytesMut) {Level : Type 0} (Z : Zlib Level) where
  -- `self.codec.decode(&mut self.in_buf, dst)`
  unfoldable pub decode_in : MySyncFramed Level → Bytes → Received Level
  decode_in f dst =
      let s = decode M Z (f.codec) (f.in_buf) dst in
      record {
        framed = record f { codec = s.state; in_buf = s.src };
        dst = s.dst;
        outcome = s.outcome;
      }

  -- What the last decoding comes to at the end of the stream.
  unfoldable pub at_end : Received Level → Received Level
  at_end r = elim (r.outcome) [
    | ok false ↦ elim (is_empty (r.framed.in_buf)) [
      | true ↦ r
      | false ↦ record { framed = r.framed; dst = r.dst; outcome = err io }
    ]
    | _ ↦ r
  ]

  -- A round of the loop of `next_packet` once `eof` is set.
  unfoldable pub decode_at_eof : MySyncFramed Level → Bytes → Received Level
  decode_at_eof f dst = at_end (decode_in (record f { eof = true }) dst)

  -- Go on reading where no packet is complete.
  unfoldable pub unless_done :
      (MySyncFramed Level → Bytes → Received Level) → Received Level → Received Level
  unless_done more r = elim (r.outcome) [ ok false ↦ more (r.framed) (r.dst) | _ ↦ r ]

  -- The loop from a read on.
  unfoldable pub read_loop : List ReadEvent → MySyncFramed Level → Bytes → Received Level
  read_loop [] f dst = decode_at_eof (record f { stream = [] }) dst
  read_loop (read_interrupted ∷ events) f dst = read_loop events f dst
  read_loop (read_failed ∷ events) f dst = record {
    framed = record f { stream = events };
    dst = dst;
    outcome = err io;
  }
  read_loop (received [] ∷ events) f dst = decode_at_eof (record f { stream = events }) dst
  read_loop (received (b ∷ bs) ∷ events) f dst =
      unless_done (read_loop events)
        (decode_in (record f { in_buf = f.in_buf ++ b ∷ bs; stream = events }) dst)

  -- `next_packet`
  unfoldable pub next_packet : MySyncFramed Level → Bytes → Received Level
  next_packet f dst = elim (f.eof) [
    | true ↦ at_end (decode_in f dst)
    | false ↦ unless_done (read_loop (f.stream)) (decode_in f dst)
  ]

  -- `with_interrupt!` over a writer's results, the error included.
  unfoldable pub retry : List WriteEvent → Outcome (Unit {0}) × List WriteEvent
  retry [] = (ok tt, [])
  retry (done ∷ events) = (ok tt, events)
  retry (write_interrupted ∷ events) = retry events
  retry (write_failed ∷ events) = (err io, events)

  -- `write`: the state, what is left of the packet, the bytes written and the outcome.
  module _ {T : Type 0} (P : Buf T) where
    unfoldable pub write :
        MySyncFramed Level
        → T
        → List WriteEvent
        → MySyncFramed Level × T × Bytes × Outcome (Unit {0}) × List WriteEvent
    write f item events =
        let (c, item', out, o) = encode M Z P (f.codec) item (f.out_buf) in
        let f' : MySyncFramed Level = record f { codec = c; out_buf = out } in
        let (w, events') = retry events in
        elim o [
          | ok u ↦ elim w [
            | ok v ↦ (record f' { out_buf = [] }, item', out, ok tt, events')
            | e ↦ (f', item', [], e, events')
          ]
          | e ↦ (f', item', [], e, events)
        ]

    unfoldable pub flush : List WriteEvent → Outcome (Unit {0}) × List WriteEvent
    flush events = retry events

    unfoldable pub send :
        MySyncFramed Level
        → T
        → List WriteEvent
        → MySyncFramed Level × T × Bytes × Outcome (Unit {0}) × List WriteEvent
    send f item events =
        let (f', item', out, o, events') = write f item events in
        let (o', events'') = flush events' in
        elim o [ ok u ↦ (f', item', out, o', events'') | e ↦ (f', item', out, e, events') ]

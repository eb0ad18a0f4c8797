-- ===== src/SyncFramed/Delivery.antt =====
-- src/proto/sync_framed.rs: packets that arrive over a stream of reads, in pieces of any sizes.
use rust_mysql_common.Base.{
  ℕ, suc, ◌≤◌, ◌<◌, ◌≡◌, refl, ap, sym, subst, ◌∙◌, none, Bool, true, false, List, [], ◌∷◌, ◌++◌,
  arith, length, append_assoc, append-nil,
}
use rust_mysql_common.Base.Bytes.{Bytes}
use rust_mysql_common.Codec.Crates.{BytesMut, Buf, Zlib}
use rust_mysql_common.Codec.Outcome.{Step, Outcome, ok, err, panic, stuck}
use rust_mysql_common.Codec.Plain.{PlainPacketCodec, plain_encode}
use rust_mysql_common.Codec.PacketCodec.{plain, decode, inner_decode}
use rust_mysql_common.Codec.RoundTrip.{at_id, plain_decode-plain_encode}
use rust_mysql_common.Codec.Arrivals.{decode_all, MeetsBy, decode_all-Meets}
use rust_mysql_common.SyncFramed.{
  ReadEvent, received, read_interrupted, MySyncFramed, Received, decode_in, unless_done, read_loop,
  next_packet,
}

-- The reads bring the bytes, in pieces that are not empty and with interrupted reads between them;
-- what comes once the bytes are there is not restricted.
pub data Arrives : List ReadEvent → Bytes → Type 0 where
  arrived : (events : List ReadEvent) → Arrives events []
  interrupted :
      {events : List ReadEvent} {bytes : Bytes}
      → Arrives events bytes
      → Arrives (read_interrupted ∷ events) bytes
  piece :
      (b : ℕ) (bs : Bytes) {events : List ReadEvent} {bytes : Bytes}
      → Arrives events bytes
      → Arrives (received (b ∷ bs) ∷ events) (b ∷ bs ++ bytes)

module _ (M : BytesMut) {Level : Type 0} (Z : Zlib Level) (max_allowed_packet : ℕ)
    (out_buf : Bytes) where
  -- A connection with a plain codec that has not come to the end of its stream.
  abbrev pub connection : PlainPacketCodec → Bytes → List ReadEvent → MySyncFramed Level
  connection c in_buf stream = record {
    eof = false;
    in_buf = in_buf;
    out_buf = out_buf;
    codec = record { max_allowed_packet = max_allowed_packet; inner = plain c };
    stream = stream;
  }

  abbrev whole_of : PlainPacketCodec → Bytes → Bytes → Step PlainPacketCodec Bool
  whole_of = decode_all M max_allowed_packet none

  -- A packet has been delivered, and what it left of the input is in the buffer or yet to arrive.
  abbrev pub Delivers : PlainPacketCodec → Bytes → Bytes → Received Level → Type 0
  Delivers c rest packet r =
      (in_buf unread : Bytes) × (stream : List ReadEvent) × Arrives stream unread
      × (in_buf ++ unread ≡ rest)
      × (r ≡ record { framed = connection c in_buf stream; dst = packet; outcome = ok true })

  abbrev Complete : Step PlainPacketCodec Bool → PlainPacketCodec → Bytes → Bytes → Type 0
  Complete s c rest packet = s ≡ record { state = c; src = rest; dst = packet; outcome = ok true }

  -- What a call of `decode` returned, in the connection.
  abbrev returned : List ReadEvent → Step PlainPacketCodec Bool → Received Level
  returned stream s = record {
    framed = connection s.state s.src stream;
    dst = s.dst;
    outcome = s.outcome;
  }

  abbrev Good : Outcome Bool → Type 0
  Good (ok b) = Unit {0}
  Good (err e) = ⊥
  Good panic = ⊥
  Good stuck = ⊥

  whole-Good :
      {s whole : Step PlainPacketCodec Bool} {c : PlainPacketCodec} {rest packet : Bytes}
      → whole ≡ s
      → Complete whole c rest packet
      → Good s.outcome
  whole-Good meets done = subst Good (ap Step.outcome (sym done ∙ meets)) tt

  module _ (c' : PlainPacketCodec) (rest packet : Bytes) where
    -- What the loop does with a call of `decode` on a part of what is to come.
    goes_on :
        (state : PlainPacketCodec) (src dst : Bytes) (whole : Step PlainPacketCodec Bool)
        (events : List ReadEvent) (b : ℕ) (bytes : Bytes) (o : Outcome Bool)
        → Arrives events (b ∷ bytes)
        → Complete whole c' rest packet
        → MeetsBy M max_allowed_packet none
            (b ∷ bytes)
            (record { state = state; src = src; dst = dst; outcome = o })
            whole
            o
        → ((c : PlainPacketCodec) (in_buf dst : Bytes) (stream : List ReadEvent)
            → Complete (whole_of c (in_buf ++ b ∷ bytes) dst) c' rest packet
            → Delivers c' rest packet (read_loop M Z events (connection c in_buf stream) dst))
        → Delivers c' rest packet (
            unless_done M Z
              (read_loop M Z events)
              (returned events (record { state = state; src = src; dst = dst; outcome = o })))
    unfolding unless_done
    goes_on state src dst whole events b bytes (ok false) h done meets loop =
        loop state src dst events (meets ∙ done)
    goes_on state src dst whole events b bytes (ok true) h done meets loop =
        let q = sym meets ∙ done in
        (
          src,
          b ∷ bytes,
          events,
          h,
          ap Step.src q,
          ap
              (λ s. record {
                framed = connection (Step.state s) src events;
                dst = Step.dst s;
                outcome = ok true;
              })
              q,
        )
    goes_on state src dst whole events b bytes (err x) h done meets loop =
        absurd (whole-Good meets done)
    goes_on state src dst whole events b bytes panic h done meets loop =
        absurd (whole-Good meets done)
    goes_on state src dst whole events b bytes stuck h done meets loop =
        absurd (whole-Good meets done)

    -- Nothing is yet to arrive.
    at_once :
        (s : Step PlainPacketCodec Bool) (events : List ReadEvent)
        → Complete s c' rest packet
        → Delivers c' rest packet (unless_done M Z (read_loop M Z events) (returned events s))
    unfolding unless_done
    at_once s events done = (
      rest,
      [],
      events,
      arrived events,
      append-nil rest,
      ap (λ t. unless_done M Z (read_loop M Z events) (returned events t)) done,
    )

    decoded :
        (c : PlainPacketCodec) (in_buf dst : Bytes) (events : List ReadEvent) (bytes : Bytes)
        → Arrives events bytes
        → Complete (whole_of c (in_buf ++ bytes) dst) c' rest packet
        → ((b : ℕ) (bs : Bytes) (c : PlainPacketCodec) (in_buf dst : Bytes)
              (stream : List ReadEvent)
            → bytes ≡ b ∷ bs
            → Complete (whole_of c (in_buf ++ b ∷ bs) dst) c' rest packet
            → Delivers c' rest packet (read_loop M Z events (connection c in_buf stream) dst))
        → Delivers c' rest packet (
            unless_done M Z (read_loop M Z events) (decode_in M Z (connection c in_buf events) dst))
    unfolding decode_in decode inner_decode
    decoded c in_buf dst events [] h done loop =
        at_once (whole_of c in_buf dst) events
          (ap (λ t. whole_of c t dst) (sym (append-nil in_buf)) ∙ done)
    decoded c in_buf dst events (b ∷ bs) h done loop =
        let s = whole_of c in_buf dst in
        goes_on s.state s.src s.dst _ events b bs s.outcome h done
          (decode_all-Meets M max_allowed_packet none (b ∷ bs) c in_buf dst refl)
          (λ c2 in_buf2 dst2 stream done2. loop b bs c2 in_buf2 dst2 stream refl done2)

    loops :
        (events : List ReadEvent) (b : ℕ) (bs bytes : Bytes) (c : PlainPacketCodec)
        (in_buf dst : Bytes) (stream : List ReadEvent)
        → Arrives events bytes
        → bytes ≡ b ∷ bs
        → Complete (whole_of c (in_buf ++ b ∷ bs) dst) c' rest packet
        → Delivers c' rest packet (read_loop M Z events (connection c in_buf stream) dst)
    unfolding read_loop
    loops _ b bs _ c in_buf dst stream (arrived events) e done =
        let no_bytes : 0 ≡ suc (length bs) = ap length e in absurd (omega arith)
    loops _ b bs _ c in_buf dst stream (interrupted {events} {bytes = more} h) e done =
        loops events b bs more c in_buf dst stream h e done
    loops _ b bs _ c in_buf dst stream (piece x xs {events} {bytes = more} h) e done =
        decoded c (in_buf ++ x ∷ xs) dst events more h
          (ap (λ t. whole_of c t dst) (append_assoc in_buf (x ∷ xs) more ∙ ap (λ t. in_buf ++ t) e)
            ∙ done)
          (λ b2 bs2 c2 in_buf2 dst2 stream2 e2 done2.
            loops events b2 bs2 more c2 in_buf2 dst2 stream2 h e2 done2)

  -- A connection whose decoder is at an encoder's sequence id delivers what the encoder sends: if the
  -- buffer and the reads to come bring the bytes sent for a packet within `max_allowed_packet`, and
  -- whatever follows, then `next_packet` returns the packet, is at the encoder's new sequence id, and
  -- has what follows in its buffer and in the reads to come. So packets arrive one after the other,
  -- however the stream is cut into pieces.
  pub next_packet-Delivers :
      {T : Type 0} (P : Buf T) (seq_id : ℕ) (codec' : PlainPacketCodec) (packet packet' : T)
      (sent rest in_buf bytes : Bytes) (events : List ReadEvent)
      → seq_id < 256
      → length (P.content packet) ≤ max_allowed_packet
      → plain_encode M P (at_id seq_id) packet [] max_allowed_packet
        ≡ (codec', packet', sent, ok tt)
      → Arrives events bytes
      → in_buf ++ bytes ≡ sent ++ rest
      → Delivers codec' rest
          (P.content packet)
          (next_packet M Z (connection (at_id seq_id) in_buf events) [])
  unfolding next_packet
  next_packet-Delivers P seq_id codec' packet packet' sent rest in_buf bytes events hs fits encoded
        h input =
      let (_, sent', _, run, _, d) =
        plain_decode-plain_encode M P seq_id max_allowed_packet none packet [] rest hs fits in
      let t = sym run ∙ encoded in
      let same : sent' ++ rest ≡ in_buf ++ bytes = ap (λ q. q.2 ++ rest) t ∙ sym input in
      decoded codec' rest (P.content packet) (at_id seq_id) in_buf [] events bytes h
        (ap (λ x. whole_of (at_id seq_id) x []) (sym same)
          ∙ d
          ∙ ap (λ q. record { state = q.0; src = rest; dst = P.content packet; outcome = ok true })
              t)
        (λ b bs c in_buf2 dst2 stream e done.
          loops codec' rest (P.content packet) events b bs bytes c in_buf2 dst2 stream h e done)

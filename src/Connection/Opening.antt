-- ===== src/Connection/Opening.antt =====
-- `connect` of libsponge/tcp_connection.cc on a new connection.
use cs144_sponge.Prelude.{
  ℕ, ◌^◌, ◌<◌, ◌≡◌, refl, ap, [], ◌∷◌, true, false, ok, arith, min, lift, and_then,
}
use cs144_sponge.ByteStream
use cs144_sponge.Wrapping.{wrap}
use cs144_sponge.StreamBuffer.{remove_front, peek_output, size_all}
use cs144_sponge.Segment.{TcpSegment, default_segment, length_in_sequence_space}
use cs144_sponge.Reassembler
use cs144_sponge.Receiver
use cs144_sponge.Receiver.{stream_out}
use cs144_sponge.Sender
use cs144_sponge.Sender.{TcpSender, fill_window, or_else}
use cs144_sponge.Connection.{
  TcpConfig, TcpConnection, init, connect, stamp, active, inbound_eof, set_sender, send_ack_if_need,
}
use cs144_sponge.TcpState.{State, of_state, state}

-- The SYN, as the sender queues it.
abbrev pub first_segment : TcpSender → TcpSegment
first_segment s = record default_segment {
  header = record default_segment.header { seqno = wrap 0 s.isn; syn = true };
}

-- The sender behind its first call of `fill_window`.
abbrev opened : TcpSender → TcpSender
opened s = record s {
  segments_out = first_segment s ∷ [];
  bytes_in_flight = 1;
  next_seqno = 1;
  seg_queue =
      record { seg = first_segment s; rto = s.initial_retransmission_timeout; time = 0 } ∷ [];
}

fill_window-init :
    (cfg : TcpConfig) (random : ℕ)
    → let s = (init cfg random).sender in fill_window s ≡ ok tt (opened s)
unfolding init fill_window Sender.init ByteStream.read remove_front peek_output size_all
    ByteStream.buffer_size ByteStream.init ByteStream.eof length_in_sequence_space
fill_window-init cfg random = refl

-- The connection that is left.
abbrev connecting : TcpConfig → ℕ → TcpConnection
connecting cfg random =
    let c = init cfg random in
    record c {
      sender = record (opened c.sender) { segments_out = [] };
      segments_out = stamp c.receiver (first_segment c.sender) ∷ [];
    }

connect_lem :
    (cfg : TcpConfig) (random : ℕ) → connect (init cfg random) ≡ ok tt (connecting cfg random)
unfolding connect init
connect_lem cfg random =
    ap (λ o. and_then (lift (set_sender (init cfg random)) o) (λ _ c. ok tt (send_ack_if_need c)))
      (fill_window-init cfg random)

state-connecting :
    (cfg : TcpConfig) (random : ℕ) → state (connecting cfg random) ≡ of_state State.syn_sent
unfolding state of_state init active inbound_eof Sender.init Receiver.init stream_out
    ByteStream.init ByteStream.error Receiver.ackno Reassembler.init
state-connecting cfg random = refl

-- What `connect` leaves of a new connection: it waits for an answer to its SYN, which carries the first
-- sequence number and the window, no acknowledgement and no data.
pub record Opens (cfg : TcpConfig) (random : ℕ) (c : TcpConnection) : Type 0 where
  pub waits : state c ≡ of_state State.syn_sent
  pub syn_segment : TcpSegment
  pub out : c.segments_out ≡ syn_segment ∷ []
  pub syn : syn_segment.header.syn ≡ true
  pub ack : syn_segment.header.ack ≡ false
  pub fin : syn_segment.header.fin ≡ false
  pub empty : syn_segment.payload ≡ []
  pub seqno : syn_segment.header.seqno ≡ wrap 0 (or_else cfg.fixed_isn random)
  pub win : syn_segment.header.win ≡ min 65535 cfg.recv_capacity

connecting-Opens :
    (cfg : TcpConfig) (random : ℕ)
    → cfg.recv_capacity < 2 ^ 64
    → Opens cfg random (connecting cfg random)
unfolding stamp init Sender.init Receiver.init Receiver.ackno Receiver.window_size Reassembler.init
    Reassembler.current_capacity ByteStream.buffer_size ByteStream.init size_all
connecting-Opens cfg random h =
    let c = init cfg random in
    record {
      waits = state-connecting cfg random;
      syn_segment = stamp c.receiver (first_segment c.sender);
      out = refl;
      syn = refl;
      ack = refl;
      fin = refl;
      empty = refl;
      seqno = refl;
      win = omega arith;
    }

pub connect-Opens :
    (cfg : TcpConfig) (random : ℕ)
    → cfg.recv_capacity < 2 ^ 64
    → (c : TcpConnection) × (connect (init cfg random) ≡ ok tt c) × Opens cfg random c
connect-Opens cfg random h =
    (connecting cfg random, connect_lem cfg random, connecting-Opens cfg random h)

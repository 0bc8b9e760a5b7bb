-- ===== src/Connection.antt =====
-- libsponge/tcp_connection.hh and tcp_connection.cc, with `TCPConfig` of tcp_helpers/tcp_config.hh.
-- The random first sequence number of the sender is an argument of `init`.
pub mod Drain
pub mod Reset
pub mod Linger
pub mod Carries
pub mod Receiving
pub mod History
pub mod Opening
use cs144_sponge.Prelude.{
  ℕ, ◌+◌, ◌*◌, List, [], ◌∷◌, ◌++◌, Option, none, some, Bool, true, false, not, ◌&&◌, ◌||◌, u64,
  sub32, min, ltb, leb, ◌==◌, if◌then◌else◌, length, Outcome, ok, lift, and_then,
}
use cs144_sponge.ByteStream
use cs144_sponge.ByteStream.{ByteStream}
use cs144_sponge.Segment.{TcpSegment, default_segment, length_in_sequence_space}
use cs144_sponge.Receiver
use cs144_sponge.Receiver.{TcpReceiver, ackno, window_size, is_some, stream_out}
use cs144_sponge.Sender
use cs144_sponge.Sender.{
  TcpSender, fill_window, ack_received, send_empty_segment, next_seqno_wrapped,
  consecutive_retransmissions,
}

pub record TcpConfig : Type 0 where
  pub rt_timeout : ℕ
  pub recv_capacity : ℕ
  pub send_capacity : ℕ
  pub fixed_isn : Option ℕ

-- `TCPConfig::MAX_RETX_ATTEMPTS`.
abbrev pub max_retx_attempts : ℕ
max_retx_attempts = 8

pub record TcpConnection : Type 0 where
  pub cfg : TcpConfig
  pub receiver : TcpReceiver
  pub sender : TcpSender
  pub segments_out : List TcpSegment
  pub linger_after_streams_finish : Bool
  pub is_rst : Bool
  pub last_received_time : ℕ
  pub send_fin_first : Bool

unfoldable pub init : TcpConfig → ℕ → TcpConnection
init cfg random = record {
  cfg = cfg;
  receiver = Receiver.init cfg.recv_capacity;
  sender = Sender.init cfg.send_capacity cfg.rt_timeout cfg.fixed_isn random;
  segments_out = [];
  linger_after_streams_finish = true;
  is_rst = false;
  last_received_time = 0;
  send_fin_first = true;
}

abbrev pub set_sender : TcpConnection → TcpSender → TcpConnection
set_sender c s = record c { sender = s }

abbrev pub set_receiver : TcpConnection → TcpReceiver → TcpConnection
set_receiver c r = record c { receiver = r }

unfoldable pub remaining_outbound_capacity : TcpConnection → ℕ
remaining_outbound_capacity c = ByteStream.remaining_capacity c.sender.stream

pub unassembled_bytes : TcpConnection → ℕ
unassembled_bytes c = Receiver.unassembled_bytes c.receiver

unfoldable pub inbound_stream : TcpConnection → ByteStream
inbound_stream c = stream_out c.receiver

-- The whole inbound stream has arrived and has been read.
unfoldable pub inbound_eof : TcpConnection → Bool
unfolding inbound_stream
inbound_eof c = ByteStream.eof (inbound_stream c)

unfoldable pub active : TcpConnection → Bool
active c =
    if c.is_rst
    then false
    else not (c.sender.is_fin_received && inbound_eof c && not c.linger_after_streams_finish)

-- What `_send_ack_if_need` puts on a segment: the acknowledgement, if there is one, and the window.
with_ackno : TcpSegment → Option ℕ → TcpSegment
with_ackno seg none = seg
with_ackno seg (some a) = record seg { header = record seg.header { ack = true; ackno = a } }

unfoldable pub stamp : TcpReceiver → TcpSegment → TcpSegment
unfolding with_ackno
stamp r seg =
    let g = with_ackno seg (ackno r) in
    record g { header = record g.header { win = min 65535 (window_size r) } }

-- The loop of `_send_ack_if_need`, over the queue of the sender.
pub drain_loop : List TcpSegment → TcpConnection → TcpConnection
drain_loop [] c = c
drain_loop (g ∷ gs) c = drain_loop gs (record c {
  sender = record c.sender { segments_out = gs };
  segments_out = c.segments_out ++ (stamp c.receiver g ∷ []);
})

pub send_ack_if_need : TcpConnection → TcpConnection
unfolding drain_loop
send_ack_if_need c = drain_loop c.sender.segments_out c

pub set_rst : TcpConnection → TcpConnection
set_rst c = record c {
  is_rst = true;
  sender = record c.sender { stream = ByteStream.set_error c.sender.stream };
  receiver = record c.receiver {
    reassembler = record c.receiver.reassembler {
      output = ByteStream.set_error c.receiver.reassembler.output;
    };
  };
}

-- The segment that `_send_rst_to_peer` sends.
pub rst_segment : TcpConnection → TcpSegment
rst_segment c = record default_segment {
  header = record default_segment.header { seqno = next_seqno_wrapped c.sender; rst = true };
}

-- The loop that empties the queue of the sender leaves it empty.
pub send_rst_to_peer : TcpConnection → TcpConnection
unfolding rst_segment set_rst
send_rst_to_peer c =
    let c' = record c { sender = record c.sender { segments_out = [] } } in
    set_rst (record c' { segments_out = c'.segments_out ++ (rst_segment c' ∷ []) })

-- `fill_window`, then `_send_ack_if_need`.
pub fill_and_send : TcpConnection → Outcome TcpConnection (Unit {0})
unfolding send_ack_if_need
fill_and_send c =
    and_then (lift (set_sender c) (fill_window c.sender)) (λ _ c'. ok tt (send_ack_if_need c'))

unfoldable pub connect : TcpConnection → Outcome TcpConnection (Unit {0})
unfolding fill_and_send
connect c = fill_and_send c

unfoldable pub write : TcpConnection → List ℕ → Outcome TcpConnection ℕ
unfolding fill_and_send
write c str =
    let w = ByteStream.write c.sender.stream str in
    and_then (fill_and_send (set_sender c (record c.sender { stream = w.1 }))) (λ _ c'. ok w.0 c')

pub end_input_stream : TcpConnection → Outcome TcpConnection (Unit {0})
unfolding fill_and_send
end_input_stream c =
    fill_and_send (set_sender c (record c.sender { stream = ByteStream.end_input c.sender.stream }))

-- The end of the wait after an active close.
linger_over : TcpConnection → ℕ → Bool
linger_over c ms =
    c.sender.is_syn_received
    && inbound_eof c
    && c.linger_after_streams_finish
    && leb (10 * c.cfg.rt_timeout) (u64 (c.last_received_time + ms))

pub tick : TcpConnection → ℕ → TcpConnection
unfolding linger_over send_rst_to_peer send_ack_if_need
tick c ms =
    if leb max_retx_attempts (consecutive_retransmissions c.sender)
    then send_rst_to_peer c
    else send_ack_if_need (record c {
      linger_after_streams_finish =
          if linger_over c ms then false else c.linger_after_streams_finish;
      sender = Sender.tick c.sender ms;
      last_received_time = u64 (c.last_received_time + ms);
    })

-- The branch of `segment_received` for the sender.
take_ack : TcpConnection → TcpSegment → TcpConnection
take_ack c seg =
    if seg.header.ack
    then set_sender c (ack_received c.sender seg.header.ackno seg.header.win)
    else c

-- The two tests that decide which side closes first.
note_fin : TcpConnection → TcpConnection
note_fin c =
    if is_some c.receiver.fsn && not (ByteStream.eof c.sender.stream)
    then record c { send_fin_first = false }
    else c

note_passive : TcpConnection → TcpConnection
note_passive c =
    if c.sender.is_syn_received && inbound_eof c && not c.send_fin_first
    then record c { linger_after_streams_finish = false }
    else c

-- A segment without a sequence number, one below the acknowledgement.
is_one_below : Option ℕ → ℕ → Bool
is_one_below none seqno = false
is_one_below (some a) seqno = sub32 a 1 == seqno

keep_alive : TcpConnection → TcpSegment → Bool
unfolding is_one_below
keep_alive c seg =
    (length_in_sequence_space seg == 0) && is_one_below (ackno c.receiver) seg.header.seqno

abbrev no_segments : List TcpSegment → Bool
no_segments [] = true
no_segments (g ∷ gs) = false

-- An acknowledgement goes out even when the sender has nothing to send.
answer : TcpConnection → TcpSegment → TcpConnection
unfolding send_ack_if_need
answer c seg =
    let needs = not (length seg.payload == 0) || leb 1 (length_in_sequence_space seg) in
    send_ack_if_need (
      if no_segments c.sender.segments_out && needs
      then set_sender c (send_empty_segment c.sender)
      else c)

-- `segment_received` from the test for a keep-alive segment on.
reply : TcpConnection → TcpSegment → Outcome TcpConnection (Unit {0})
unfolding keep_alive answer send_ack_if_need
reply c seg =
    if keep_alive c seg
    then ok tt (send_ack_if_need (set_sender c (send_empty_segment c.sender)))
    else and_then
        (if c.sender.is_syn_received || seg.header.syn
          then lift (set_sender c) (fill_window c.sender)
          else ok tt c)
        (λ _ c'. ok tt (answer c' seg))

-- `segment_received` from the acknowledgement on.
handle : TcpConnection → TcpSegment → Outcome TcpConnection (Unit {0})
unfolding take_ack note_fin note_passive reply
handle c seg =
    let c1 = take_ack c seg in
    and_then (lift (set_receiver c1) (Receiver.segment_received c1.receiver seg))
      (λ _ c2. reply (note_passive (note_fin c2)) seg)

-- The final acknowledgement of an active close is repeated only for another FIN.
is_late : TcpConnection → TcpSegment → Bool
is_late c seg = c.sender.is_fin_received && inbound_eof c && c.send_fin_first && not seg.header.fin

unfoldable pub segment_received : TcpConnection → TcpSegment → Outcome TcpConnection (Unit {0})
unfolding handle is_late set_rst active
segment_received c seg =
    let c0 = record c { last_received_time = 0 } in
    if seg.header.rst
    then ok tt (set_rst c0)
    else if not (active c0)
    then ok tt c0
    else if is_late c0 seg
    then ok tt c0
    else handle c0 seg

-- The destructor.
pub destroy : TcpConnection → TcpConnection
unfolding active send_rst_to_peer
destroy c = if active c then send_rst_to_peer c else c

-- ===== src/Sender.antt =====
-- libsponge/tcp_sender.hh and tcp_sender.cc. The random first sequence number is an argument.
pub mod Segments
pub mod Cut
pub mod Fill
pub mod Flight
pub mod Row
pub mod Holds
pub mod Continues
pub mod Progress
pub mod Parts
pub mod PartsOfRow
pub mod Emits
pub mod Keeps
pub mod Calls
pub mod History
pub mod Ack
pub mod Timer
use cs144_sponge.Prelude.{
  ℕ, zero, suc, ◌+◌, ◌-◌, ◌*◌, List, [], ◌∷◌, ◌++◌, Option, none, some, Bool, true, false, not,
  ◌&&◌, ◌||◌, u32, u64, sub64, min, ltb, leb, ◌==◌, if◌then◌else◌, length, Outcome, ok, throws,
  lift, and_then, out_of_range, runtime_error,
}
use cs144_sponge.Wrapping.{wrap, unwrap}
use cs144_sponge.ByteStream
use cs144_sponge.ByteStream.{ByteStream}
use cs144_sponge.BufferString.{substr}
use cs144_sponge.Segment.{TcpSegment, TcpHeader, default_segment, length_in_sequence_space}

-- `TCPSenderSegment`; the segment behind the shared pointer is never written to.
pub record SenderSegment : Type 0 where
  pub seg : TcpSegment
  pub rto : ℕ
  pub time : ℕ

pub record TcpSender : Type 0 where
  pub isn : ℕ
  pub segments_out : List TcpSegment
  pub initial_retransmission_timeout : ℕ
  pub stream : ByteStream
  pub is_syn_received : Bool
  pub is_fin_received : Bool
  pub last_tick_time : ℕ
  pub consecutive_retrans : ℕ
  pub window_size : ℕ
  pub is_window_zero : Bool
  pub bytes_in_flight : ℕ
  pub seg_queue : List SenderSegment
  pub next_seqno : ℕ

abbrev pub or_else : Option ℕ → ℕ → ℕ
or_else none r = r
or_else (some x) r = x

unfoldable pub init : ℕ → ℕ → Option ℕ → ℕ → TcpSender
init capacity retx_timeout fixed_isn random = record {
  isn = or_else fixed_isn random;
  segments_out = [];
  initial_retransmission_timeout = retx_timeout;
  stream = ByteStream.init capacity;
  is_syn_received = false;
  is_fin_received = false;
  last_tick_time = 0;
  consecutive_retrans = 0;
  window_size = 1;
  is_window_zero = false;
  bytes_in_flight = 0;
  seg_queue = [];
  next_seqno = 0;
}

-- `TCPConfig::MAX_PAYLOAD_SIZE`.
abbrev pub max_payload_size : ℕ
max_payload_size = 1000

-- Whether the front of the queue, or its back, carries a flag; `none` is the empty queue.
abbrev pub front_syn : List SenderSegment → Option Bool
front_syn [] = none
front_syn (x ∷ xs) = some x.seg.header.syn

abbrev pub back_fin : List SenderSegment → Bool
back_fin [] = false
back_fin (x ∷ []) = x.seg.header.fin
back_fin (x ∷ (y ∷ ys)) = back_fin (y ∷ ys)

-- The FIN flag that one round of the loop sets.
abbrev round_fin : Bool → ℕ → Bool → Bool
round_fin is_fin readable old = if is_fin then leb readable max_payload_size else old

-- The segment of one round.
pub round_segment : TcpSender → TcpSegment → Bool → List ℕ → ℕ → TcpSegment
round_segment s seg is_fin str readable = record {
  header = record seg.header {
    seqno = wrap s.next_seqno s.isn;
    fin = round_fin is_fin readable seg.header.fin;
  };
  payload = str;
}

-- What the sender does with the segment of one round.
pub enqueue : TcpSender → TcpSegment → TcpSender
enqueue s seg = record s {
  next_seqno = u64 (s.next_seqno + length_in_sequence_space seg);
  bytes_in_flight = u64 (s.bytes_in_flight + length_in_sequence_space seg);
  segments_out = s.segments_out ++ (seg ∷ []);
  seg_queue =
      s.seg_queue
      ++ (record { seg = seg; rto = s.initial_retransmission_timeout; time = s.last_tick_time }
          ∷ []);
}

queue_payload : TcpSender → TcpSegment → Bool → ℕ → Option (List ℕ) → Outcome TcpSender TcpSegment
unfolding round_segment enqueue
queue_payload s seg is_fin readable none = throws out_of_range s
queue_payload s seg is_fin readable (some str) =
    ok (round_segment s seg is_fin str readable)
      (enqueue s (round_segment s seg is_fin str readable))

-- One round of the do-while loop, with the segment that it leaves for the next round.
pub send_round : TcpSender → TcpSegment → Bool → List ℕ → ℕ → ℕ → Outcome TcpSender TcpSegment
unfolding queue_payload
send_round s seg is_fin buffer_str readable index =
    queue_payload s seg is_fin readable
      (substr buffer_str (index * max_payload_size) (min max_payload_size readable))

-- The do-while loop. The number of bytes still to send is fuel enough, since each round but the
-- last sends some.
pub send_loop : ℕ → TcpSender → TcpSegment → Bool → List ℕ → ℕ → ℕ → Outcome TcpSender (Unit {0})
unfolding send_round
send_loop zero s seg is_fin buffer_str readable index =
    and_then (send_round s seg is_fin buffer_str readable index) (λ seg' s'. ok tt s')
send_loop (suc n) s seg is_fin buffer_str readable index =
    and_then (send_round s seg is_fin buffer_str readable index) (λ seg' s'.
      let rest = send_loop n s' seg' is_fin buffer_str (readable - max_payload_size) (index + 1) in
      if ltb max_payload_size readable then rest else ok tt s')

-- From the test for the end of the stream on; `readable` bytes have been read.
pub fill_read : TcpSender → Bool → ℕ → ℕ → List ℕ → Outcome TcpSender (Unit {0})
unfolding send_loop
fill_read s syn remaining readable str =
    let at_end = ByteStream.eof s.stream && not s.is_fin_received in
    let fin = at_end && leb (readable + 1) remaining in
    let header = record default_segment.header { syn = syn; fin = fin } in
    if at_end && back_fin s.seg_queue
    then ok tt s
    else if readable == 0 && not (syn || fin)
    then ok tt s
    else send_loop readable s (record default_segment { header = header }) fin str readable 0

-- From the read on, when the SYN flag of the segment is known.
pub fill_with : TcpSender → Bool → ℕ → Outcome TcpSender (Unit {0})
unfolding fill_read
fill_with s syn remaining =
    let readable = min remaining (ByteStream.buffer_size s.stream) in
    and_then (lift (λ b. record s { stream = b }) (ByteStream.read s.stream readable))
      (λ str s'. fill_read s' syn remaining readable str)

-- Before the SYN is acknowledged: the queue is empty, or begins with the SYN.
fill_syn : TcpSender → ℕ → Option Bool → Outcome TcpSender (Unit {0})
unfolding fill_with
fill_syn s remaining none = fill_with s true remaining
fill_syn s remaining (some true) = ok tt s
fill_syn s remaining (some false) = throws runtime_error s

pub remaining_window : TcpSender → ℕ
remaining_window s =
    if ltb s.bytes_in_flight s.window_size then s.window_size - s.bytes_in_flight else 0

unfoldable pub fill_window : TcpSender → Outcome TcpSender (Unit {0})
unfolding fill_syn remaining_window
fill_window s =
    if remaining_window s == 0
    then ok tt s
    else if s.is_syn_received
    then fill_with s false (remaining_window s)
    else fill_syn s (remaining_window s) (front_syn s.seg_queue)

-- One round of the loop of `ack_received`: the front of the queue is taken off.
pub take_front : TcpSender → SenderSegment → List SenderSegment → TcpSender
take_front s x xs = record s {
  consecutive_retrans = 0;
  is_syn_received = s.is_syn_received || x.seg.header.syn;
  is_fin_received = s.is_fin_received || x.seg.header.fin;
  bytes_in_flight = sub64 s.bytes_in_flight (length_in_sequence_space x.seg);
  seg_queue = xs;
}

-- Whether the segment lies wholly below the acknowledged number.
pub is_acked : TcpSender → SenderSegment → ℕ → Bool
is_acked s x ack_seqno =
    leb (u64 (unwrap x.seg.header.seqno s.isn s.next_seqno + length_in_sequence_space x.seg))
      ack_seqno

-- The loop over the queue, with the mark whether the timer should restart.
pub ack_loop : List SenderSegment → TcpSender → ℕ → Bool → TcpSender × Bool
unfolding take_front is_acked
ack_loop [] s ack_seqno restart = (s, restart)
ack_loop (x ∷ xs) s ack_seqno restart =
    let rest = ack_loop xs (take_front s x xs) ack_seqno true in
    if is_acked s x ack_seqno then rest else (s, restart)

pub restart_front : TcpSender → List SenderSegment → List SenderSegment
restart_front s [] = []
restart_front s (x ∷ xs) =
    record x { rto = s.initial_retransmission_timeout; time = s.last_tick_time } ∷ xs

pub restart : TcpSender × Bool → TcpSender
unfolding restart_front
restart (s, should_restart) =
    if should_restart then record s { seg_queue = restart_front s s.seg_queue } else s

-- The window that the peer advertises; a closed one counts as 1.
pub set_window : TcpSender → ℕ → TcpSender
set_window s window = record s {
  window_size = if window == 0 then 1 else window;
  is_window_zero = window == 0;
}

unfoldable pub ack_received : TcpSender → ℕ → ℕ → TcpSender
unfolding ack_loop restart set_window
ack_received s ackno window =
    let ack_seqno = unwrap ackno s.isn s.next_seqno in
    if ltb s.next_seqno ack_seqno
    then s
    else restart (ack_loop s.seg_queue (set_window s window) ack_seqno false)

-- `tick` when the queue has a front: it is sent again once its time is up.
unfoldable pub tick_front : TcpSender → List SenderSegment → TcpSender
tick_front s [] = s
tick_front s (x ∷ xs) =
    if leb (u64 (x.time + x.rto)) s.last_tick_time
    then record s {
      seg_queue =
          record x {
            rto = if s.is_window_zero then x.rto else u64 (x.rto * 2);
            time = s.last_tick_time;
          }
          ∷ xs;
      consecutive_retrans = u64 (s.consecutive_retrans + 1);
      segments_out = s.segments_out ++ (x.seg ∷ []);
    }
    else s

unfoldable pub tick : TcpSender → ℕ → TcpSender
unfolding tick_front
tick s ms =
    let s' = record s { last_tick_time = u64 (s.last_tick_time + ms) } in tick_front s' s'.seg_queue

-- `consecutive_retransmissions` returns an `unsigned int`.
unfoldable pub consecutive_retransmissions : TcpSender → ℕ
consecutive_retransmissions s = u32 s.consecutive_retrans

unfoldable pub next_seqno_wrapped : TcpSender → ℕ
next_seqno_wrapped s = wrap s.next_seqno s.isn

unfoldable pub send_empty_segment : TcpSender → TcpSender
unfolding next_seqno_wrapped
send_empty_segment s =
    let header = record default_segment.header { seqno = next_seqno_wrapped s } in
    record s { segments_out = s.segments_out ++ (record default_segment { header = header } ∷ []) }

-- ===== src/Tests/Connections.antt =====
-- A transfer between two connections at concrete values.
use cs144_sponge.Prelude.{
  ◌≡◌, refl, inl, inr, List, [], ◌∷◌, ℕ, some, true, false, arith, ok, none, state_of, ◌≤◌,
}
use cs144_sponge.ByteStream
use cs144_sponge.ByteStream.{ByteStream}
use cs144_sponge.Wrapping.{wrap, unwrap}
use cs144_sponge.BufferString
use cs144_sponge.StreamBuffer
use cs144_sponge.StreamBuffer.{remove_front, peek_output, size_all, of_string}
use cs144_sponge.Segment.{length_in_sequence_space, TcpSegment, default_segment}
use cs144_sponge.Sender
use cs144_sponge.Sender.{TcpSender, SenderSegment, fill_window, ack_received, send_empty_segment}
use cs144_sponge.Sender.History.{Transmits}
use cs144_sponge.Reassembler
use cs144_sponge.Receiver
use cs144_sponge.Receiver.{TcpReceiver, stream_out}
use cs144_sponge.Connection
use cs144_sponge.Connection.{TcpConfig, TcpConnection, connect, end_input_stream}
use cs144_sponge.Connection.History.{
  Runs, Runs-init-Carries, start, connects, receives, writes, takes,
}
use cs144_sponge.Transfer.{Delivers, set_output}
use cs144_sponge.Transfer.EndToEnd.{Through, Delivers-Through}

abbrev pub cfg : TcpConfig
cfg = record { rt_timeout = 1000; recv_capacity = 8; send_capacity = 10; fixed_isn = some 7 }

abbrev pub first_connection : TcpConnection
first_connection = Connection.init cfg 0

abbrev pub syn_out : TcpSegment
syn_out = record default_segment {
  header = record default_segment.header { seqno = 7; syn = true; win = 8 };
}

-- The peer's answer.
abbrev syn_ack : TcpSegment
syn_ack = record default_segment {
  header = record default_segment.header {
    seqno = 100;
    syn = true;
    ack = true;
    ackno = 8;
    win = 10;
  };
}

abbrev pub bytes : List ℕ
bytes = 10 ∷ 20 ∷ 30 ∷ []

abbrev pub ack_out : TcpSegment
ack_out = record default_segment {
  header = record default_segment.header { seqno = 8; ack = true; ackno = 101; win = 8 };
}

abbrev pub text_out : TcpSegment
text_out = record ack_out { payload = bytes }

abbrev pub no_bytes : ByteStream
no_bytes = record {
  buffers = [];
  capacity = 10;
  bytes_read = 0;
  bytes_written = 0;
  is_input_end = false;
  has_error = false;
}

abbrev pub syn_sent : TcpSender
syn_sent = record {
  isn = 7;
  segments_out = [];
  initial_retransmission_timeout = 1000;
  stream = no_bytes;
  is_syn_received = false;
  is_fin_received = false;
  last_tick_time = 0;
  consecutive_retrans = 0;
  window_size = 1;
  is_window_zero = false;
  bytes_in_flight = 1;
  seg_queue =
      record {
        seg = record default_segment {
          header = record default_segment.header { seqno = 7; syn = true };
        };
        rto = 1000;
        time = 0;
      }
      ∷ [];
  next_seqno = 1;
}

abbrev pub connecting : TcpConnection
connecting = record first_connection { sender = syn_sent; segments_out = syn_out ∷ [] }

-- The SYN of the peer has come in.
abbrev pub listening_at_1 : TcpReceiver
listening_at_1 = record {
  reassembler = record {
    top_pointer = 1;
    output = record no_bytes { capacity = 8 };
    capacity = 8;
    buffer_list = [];
  };
  capacity = 8;
  isn = some 100;
  fsn = none;
}

abbrev pub established : TcpConnection
established = record connecting {
  receiver = listening_at_1;
  sender = record syn_sent {
    is_syn_received = true;
    window_size = 10;
    bytes_in_flight = 0;
    seg_queue = [];
  };
  segments_out = syn_out ∷ (ack_out ∷ []);
}

abbrev pub sending : TcpConnection
sending = record established {
  sender = record established.sender {
    stream = record no_bytes { bytes_read = 3; bytes_written = 3 };
    bytes_in_flight = 3;
    seg_queue =
        record {
          seg = record default_segment {
            header = record default_segment.header { seqno = 8 };
            payload = bytes;
          };
          rto = 1000;
          time = 0;
        }
        ∷ [];
    next_seqno = 4;
  };
  segments_out = syn_out ∷ (ack_out ∷ (text_out ∷ []));
}

calls_return :
    (connect first_connection ≡ ok tt connecting)
    × (Connection.segment_received connecting syn_ack ≡ ok tt established)
    × (Connection.write established bytes ≡ ok 3 sending)
unfolding fill_window Sender.init ByteStream.read remove_front peek_output size_all
    ByteStream.buffer_size ByteStream.init ByteStream.eof wrap length_in_sequence_space ack_received
    unwrap ByteStream.write ByteStream.accepted of_string StreamBuffer.size
    StreamBuffer.remove_prefix StreamBuffer.get_string ByteStream.remaining_capacity Receiver.init
    Receiver.segment_received stream_out Reassembler.init Reassembler.push_substring
    Reassembler.accept Reassembler.flush Reassembler.deliver Reassembler.current_capacity
    BufferString.push_back BufferString.place BufferString.lower_bound BufferString.upper_bound
    BufferString.make BufferString.pop_up_buffer_string BufferString.top_index
    BufferString.insert_at Connection.init Connection.connect Connection.write
    Connection.segment_received Receiver.ackno send_empty_segment Connection.inbound_eof
    Connection.stamp Receiver.window_size
calls_return = (refl, refl, refl)

abbrev pub sending_done : TcpConnection
sending_done = record sending { segments_out = [] }

-- The three-way handshake of the connection, then three bytes.
pub short_run : Runs first_connection bytes (syn_out ∷ (ack_out ∷ (text_out ∷ []))) sending_done
short_run =
    let a = connects start calls_return.0 in
    let b = receives syn_ack a (inr (omega arith)) (omega arith) calls_return.1 in
    let c = writes bytes 3 b refl (omega arith) calls_return.2 in
    takes (syn_out ∷ (ack_out ∷ (text_out ∷ []))) [] c refl

Runs-init-Carries_example :
    Transmits first_connection.sender bytes
      (syn_out ∷ (ack_out ∷ (text_out ∷ [])))
      sending_done.sender
    × ((d : TcpConnection) × (connect sending_done ≡ ok tt d))
    × ((d : TcpConnection) × (end_input_stream sending_done ≡ ok tt d))
Runs-init-Carries_example = Runs-init-Carries cfg 0 (omega arith) (omega arith) short_run

-- At the other end.
abbrev syn_in : TcpReceiver
syn_in = record listening_at_1 { isn = some 7 }

abbrev text_in : TcpReceiver
text_in = state_of (Receiver.segment_received syn_in text_out)

abbrev two_read : ByteStream
two_read = state_of (ByteStream.read (stream_out text_in) 2)

receiver_returns :
    (Receiver.segment_received (Receiver.init 8) syn_out ≡ ok tt syn_in)
    × (Receiver.segment_received syn_in text_out ≡ ok tt text_in)
    × (ByteStream.read (stream_out text_in) 2 ≡ ok (10 ∷ 20 ∷ []) two_read)
    × (2 ≤ ByteStream.buffer_size (stream_out text_in))
unfolding ByteStream.read remove_front peek_output size_all ByteStream.buffer_size ByteStream.init
    unwrap ByteStream.write ByteStream.accepted of_string StreamBuffer.size
    StreamBuffer.remove_prefix StreamBuffer.get_string ByteStream.remaining_capacity Receiver.init
    Receiver.segment_received stream_out Reassembler.init Reassembler.push_substring
    Reassembler.accept Reassembler.flush Reassembler.deliver Reassembler.current_capacity
    BufferString.push_back BufferString.place BufferString.lower_bound BufferString.upper_bound
    BufferString.make BufferString.pop_up_buffer_string BufferString.top_index
    BufferString.insert_at
receiver_returns = (refl, refl, refl, omega arith)

Delivers-Through_example :
    Through bytes (10 ∷ 20 ∷ []) (set_output text_in two_read)
    × ((v : TcpReceiver) × (Receiver.segment_received (set_output text_in two_read) ack_out
          ≡ ok tt v))
Delivers-Through_example =
    Delivers-Through cfg 0 8 syn_out ack_out (omega arith) (omega arith) (omega arith) short_run
      (omega arith) (inl refl) refl refl refl receiver_returns.0
      (Delivers.reads 2 (10 ∷ 20 ∷ []) two_read
        (Delivers.arrives text_out Delivers.start (inr (inr (inl refl))) refl receiver_returns.1)
        receiver_returns.3 receiver_returns.2)
      (inr (inl refl)) refl

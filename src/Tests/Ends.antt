-- ===== src/Tests/Ends.antt =====
-- The connection at concrete values.
use cs144_sponge.Prelude.{◌+◌, ◌*◌, ◌≡◌, refl, [], ◌∷◌, some, true, false, arith, ltb}
use cs144_sponge.ByteStream
use cs144_sponge.ByteStream.{ByteStream}
use cs144_sponge.Segment.{TcpSegment, default_segment}
use cs144_sponge.Receiver.{TcpReceiver, stream_out, ackno}
use cs144_sponge.Connection.{TcpConnection, active, inbound_eof, inbound_stream, segment_received}
use cs144_sponge.Connection.Reset.{StaysShut, segment_received-StaysShut}
use cs144_sponge.Connection.Linger.{Waits, ticks, active-ticks}
use cs144_sponge.TcpState.{State, of_state, state}
use cs144_sponge.Tests.Sending.{opening}

abbrev done : ByteStream
done = record {
  buffers = [];
  capacity = 8;
  bytes_read = 3;
  bytes_written = 3;
  is_input_end = true;
  has_error = false;
}

abbrev receiver : TcpReceiver
receiver = record {
  reassembler = record { top_pointer = 4; output = done; capacity = 8; buffer_list = [] };
  capacity = 8;
  isn = some 40;
  fsn = some 43;
}

-- Both streams are over, the local one first.
abbrev waiting : TcpConnection
waiting = record {
  cfg = record { rt_timeout = 100; recv_capacity = 8; send_capacity = 8; fixed_isn = some 7 };
  receiver = receiver;
  sender = record opening {
    stream = done;
    is_syn_received = true;
    is_fin_received = true;
    bytes_in_flight = 0;
    seg_queue = [];
    next_seqno = 5;
  };
  segments_out = [];
  linger_after_streams_finish = true;
  is_rst = false;
  last_received_time = 0;
  send_fin_first = true;
}

state-waiting : state waiting ≡ of_state State.time_wait
unfolding state of_state active inbound_eof inbound_stream stream_out ByteStream.eof
    ByteStream.error ByteStream.input_ended ackno
state-waiting = refl

waiting-Waits : Waits waiting 0
unfolding inbound_eof inbound_stream stream_out ByteStream.eof
waiting-Waits = record {
  sent = refl;
  opened = refl;
  received = refl;
  kept = refl;
  acked = refl;
  calm = refl;
  clock = refl;
  mark = refl;
}

active-ticks_example :
    active (ticks waiting (600 ∷ 500 ∷ [])) ≡ ltb (0 + (600 + (500 + 0))) (10 * 100)
active-ticks_example = active-ticks waiting 0 (600 ∷ 500 ∷ []) waiting-Waits (omega arith)

abbrev rst : TcpSegment
rst = record default_segment { header = record default_segment.header { rst = true } }

abbrev shut : TcpConnection
shut = record waiting { linger_after_streams_finish = false }

shut_active : active shut ≡ false
unfolding active inbound_eof inbound_stream stream_out ByteStream.eof
shut_active = refl

segment_received-StaysShut_example : StaysShut shut (segment_received shut default_segment)
segment_received-StaysShut_example = segment_received-StaysShut shut default_segment shut_active

abbrev tired : TcpConnection
tired = record waiting { sender = record opening { consecutive_retrans = 8 } }

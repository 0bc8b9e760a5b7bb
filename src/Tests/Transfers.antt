-- ===== src/Tests/Transfers.antt =====
-- A history of the sender at concrete values.
use cs144_sponge.Prelude.{
  ◌≡◌, refl, ◌<◌, List, [], ◌∷◌, ℕ, some, true, false, arith, ok, state_of, take, inl, ◌++◌,
}
use cs144_sponge.ByteStream
use cs144_sponge.ByteStream.{ByteStream}
use cs144_sponge.Wrapping.{wrap, unwrap}
use cs144_sponge.StreamBuffer
use cs144_sponge.StreamBuffer.{remove_front, peek_output, size_all, of_string}
use cs144_sponge.Segment.{length_in_sequence_space, TcpSegment, default_segment}
use cs144_sponge.Sender
use cs144_sponge.Sender.{TcpSender, fill_window, ack_received}
use cs144_sponge.Sender.History.{Runs, Transmits, start, writes, fills, acks, takes}
use cs144_sponge.Sender.History.Log.{AckedUpTo, Logs, put_out, Runs-init-Transmits}

abbrev first_sender : TcpSender
first_sender = Sender.init 10 1000 (some 7) 0

abbrev syn_sent : TcpSender
syn_sent = state_of (fill_window first_sender)

abbrev syn : TcpSegment
syn = record default_segment { header = record default_segment.header { seqno = 7; syn = true } }

syn_goes : (fill_window first_sender ≡ ok tt syn_sent) × (syn_sent.segments_out ≡ syn ∷ [])
unfolding fill_window Sender.init ByteStream.read remove_front peek_output size_all
    ByteStream.buffer_size ByteStream.init ByteStream.eof wrap length_in_sequence_space
syn_goes = (refl, refl)

-- The SYN is acknowledged, with a window of ten, and three bytes are written.
abbrev opened : TcpSender
opened = ack_received (record syn_sent { segments_out = [] }) 8 10

abbrev bytes : List ℕ
bytes = 10 ∷ 20 ∷ 30 ∷ []

abbrev three_written : TcpSender
three_written = record opened { stream = (ByteStream.write opened.stream bytes).1 }

abbrev data_sent : TcpSender
data_sent = state_of (fill_window three_written)

abbrev text : TcpSegment
text = record default_segment {
  header = record default_segment.header { seqno = 8 };
  payload = 10 ∷ 20 ∷ 30 ∷ [];
}

abbrev run_end : TcpSender
run_end = record data_sent { segments_out = [] }

text_goes :
    (fill_window three_written ≡ ok tt data_sent)
    × (data_sent.segments_out ≡ text ∷ [])
    × (take (ByteStream.accepted opened.stream bytes) bytes ≡ bytes)
    × (opened.stream.is_input_end ≡ false)
    × (0 < syn_sent.next_seqno)
unfolding fill_window Sender.init ByteStream.read remove_front peek_output size_all
    ByteStream.buffer_size ByteStream.init ByteStream.eof wrap length_in_sequence_space ack_received
    unwrap ByteStream.write ByteStream.accepted of_string StreamBuffer.size
    StreamBuffer.remove_prefix StreamBuffer.get_string ByteStream.remaining_capacity
text_goes = (refl, refl, refl, refl, omega arith)

abbrev taken : List ℕ
taken = [] ++ take (ByteStream.accepted opened.stream bytes) bytes

-- The SYN goes out and is acknowledged; three bytes are written and go out.
abbrev short_run : Runs first_sender taken (syn ∷ text ∷ []) run_end
short_run =
    let a = takes (syn ∷ []) [] (fills start syn_goes.0) syn_goes.1 in
    let b = writes bytes (acks 8 10 a text_goes.4 (omega arith)) text_goes.3 (omega arith) in
    takes (text ∷ []) [] (fills b text_goes.0) text_goes.1

-- The number that is acknowledged is 1.
short_run-AckedUpTo : AckedUpTo 1 short_run
unfolding fill_window Sender.init ByteStream.read remove_front peek_output size_all
    ByteStream.buffer_size ByteStream.init ByteStream.eof wrap length_in_sequence_space unwrap
short_run-AckedUpTo = (inl (omega arith), tt)

Runs-init-Transmits_example :
    (k : Transmits first_sender taken (syn ∷ text ∷ []) run_end) × Logs 1
      (put_out short_run)
      k.holds
    × ((u : TcpSender) × (fill_window run_end ≡ ok tt u))
Runs-init-Transmits_example =
    Runs-init-Transmits 10 1000 (some 7) 0 1 (omega arith) (omega arith) short_run
      short_run-AckedUpTo

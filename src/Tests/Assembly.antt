-- ===== src/Tests/Assembly.antt =====
-- The reassembler and the receiver at concrete values: the stream has the byte `i` at position `i`.
use cs144_sponge.Prelude.{ℕ, ◌+◌, ◌≤◌, ◌^◌, ◌≡◌, refl, [], ◌∷◌, none, some, true, false, arith, ok}
use cs144_sponge.Wrapping.{wrap}
use cs144_sponge.Wrapping.Nearest.{dist_le}
use cs144_sponge.StreamBuffer.{get_string}
use cs144_sponge.BufferString.{BufferString}
use cs144_sponge.BufferString.Pieces.{Pieces}
use cs144_sponge.BufferString.Place.{PushesBack, push_back-PushesBack}
use cs144_sponge.Reassembler.{StreamReassembler, init, push_substring}
use cs144_sponge.Reassembler.Stream.{IsAssembly}
use cs144_sponge.Reassembler.Push.{Accepts, push_substring-Accepts}
use cs144_sponge.Reassembler.History
use cs144_sponge.Reassembler.History.{InOrder, init-IsAssembly, Runs-init-InOrder}
use cs144_sponge.Reassembler.EndMark.{push_substring_end_lost}
use cs144_sponge.Segment.{TcpSegment, default_segment, flag_size}
use cs144_sponge.Receiver.{TcpReceiver, segment_received, noted, ackno, stream_out}
use cs144_sponge.Receiver.Data.{IsReceiving, Receives, segment_received-Receives}
use cs144_sponge.Receiver.Acknowledge.{ackno_lem}
use cs144_sponge.Receiver.SynAgain.{segment_received_syn_again}
use cs144_sponge.Tests.Streams.{three, three-IsValid}

abbrev same : ℕ → ℕ
same i = i

-- The positions 6 and 7.
abbrev late : BufferString
late = record { first = 6; second = 8; is_eof = false; target = 6 ∷ 7 ∷ [] }

late-Pieces : (hi : ℕ) → 9 ≤ hi → Pieces same 4 (late ∷ []) hi
late-Pieces hi h = (omega arith, record { ordered = omega arith; holds = refl }, h)

-- What comes next is position 4, and 6 and 7 wait for it.
abbrev gap : StreamReassembler
gap = record { top_pointer = 4; output = three; capacity = 8; buffer_list = late ∷ [] }

gap-IsAssembly : IsAssembly same gap
unfolding get_string
gap-IsAssembly = record {
  output_valid = three-IsValid;
  same_capacity = refl;
  pieces = late-Pieces (2 ^ 64) (omega arith);
  starts = (omega arith, tt);
}

-- The gap has been closed, and the front node is to be put out.
abbrev closed : StreamReassembler
closed = record gap { top_pointer = 6 }

closed-IsAssembly : IsAssembly same closed
unfolding get_string
closed-IsAssembly = record {
  output_valid = three-IsValid;
  same_capacity = refl;
  pieces = (omega arith, record { ordered = omega arith; holds = refl }, omega arith);
  starts = (omega arith, tt);
}

push_back-PushesBack_example : PushesBack same 4 100 (late ∷ []) (4 ∷ 5 ∷ 6 ∷ []) 4 false
push_back-PushesBack_example =
    push_back-PushesBack same 4 100 (late ∷ []) (4 ∷ 5 ∷ 6 ∷ []) 4 false
      (late-Pieces 100 (omega arith)) (omega arith) (omega arith) (omega arith) refl

push_substring-Accepts_example :
    Accepts same gap 3 7 (push_substring gap (3 ∷ 4 ∷ 5 ∷ 6 ∷ []) 3 false)
push_substring-Accepts_example =
    push_substring-Accepts same gap (3 ∷ 4 ∷ 5 ∷ 6 ∷ []) 3 false gap-IsAssembly (omega arith) refl

first_push : Accepts same (init 8) 0 2 (push_substring (init 8) (0 ∷ 1 ∷ []) 0 false)
first_push =
    push_substring-Accepts same (init 8) (0 ∷ 1 ∷ []) 0 false (init-IsAssembly same 8 (omega arith))
      (omega arith) refl

Runs-init-InOrder_example : InOrder same [] first_push.result
Runs-init-InOrder_example = Runs-init-InOrder same 8 (omega arith) (
    History.Runs.pushes (0 ∷ 1 ∷ []) 0 false (History.Runs.start (init 8)) (omega arith) refl
      first_push.returns)

push_substring_end_lost_example : push_substring gap (6 ∷ 7 ∷ []) 6 true ≡ ok tt gap
push_substring_end_lost_example =
    push_substring_end_lost gap (6 ∷ 7 ∷ []) 6 true late [] refl (omega arith) (omega arith)
      (omega arith) (omega arith)

abbrev receiver : TcpReceiver
receiver = record { reassembler = gap; capacity = 8; isn = some 7; fsn = none }

receiver-IsReceiving : IsReceiving same 7 receiver
unfolding get_string stream_out
receiver-IsReceiving = record {
  known = refl;
  small = omega arith;
  assembly = gap-IsAssembly;
  counted = refl;
}

abbrev segment : TcpSegment
segment = record { header = record default_segment.header { seqno = 11 }; payload = 4 ∷ 5 ∷ [] }

segment_received-Receives_example : Receives same 7 receiver segment 4 6
unfolding wrap
segment_received-Receives_example =
    segment_received-Receives same 7 receiver segment 4 receiver-IsReceiving refl refl
      (omega (arith, dist_le 4 4 (omega arith))) (omega arith) (omega arith) refl

ackno_lem_example :
    ackno receiver ≡ some (wrap (4 + flag_size (stream_out receiver).is_input_end) 7)
ackno_lem_example = ackno_lem same 7 receiver receiver-IsReceiving (omega arith)

abbrev syn_again : TcpSegment
syn_again = record default_segment {
  header = record default_segment.header { seqno = 7; syn = true };
}

segment_received_syn_again_example :
    segment_received receiver syn_again
    ≡ ok tt (record (noted receiver syn_again) { reassembler = record gap { top_pointer = 1 } })
segment_received_syn_again_example =
    segment_received_syn_again receiver syn_again 7 refl (omega arith) refl refl refl (omega arith)
      (omega arith)

-- ===== src/Tests/Sending.antt =====
-- The sender at concrete values.
use cs144_sponge.Prelude.{
  ◌⊎◌, ◌-◌, take, ◌≡◌, ◌≤◌, ◌<◌, refl, [], ◌∷◌, true, false, not, arith, inl, ok,
}
use cs144_sponge.Wrapping.{wrap}
use cs144_sponge.Wrapping.Nearest.{dist_le}
use cs144_sponge.ByteStream.Queue.{contents}
use cs144_sponge.Segment.{TcpSegment, default_segment, length_in_sequence_space}
use cs144_sponge.Sender.{TcpSender, SenderSegment, fill_window, ack_received}
use cs144_sponge.Sender.Cut.{Fills}
use cs144_sponge.Sender.Row.{Queued}
use cs144_sponge.Sender.Fill.{IsReady, fill_window-Fills}
use cs144_sponge.Sender.Ack.{ack_received-Acks}
use cs144_sponge.Sender.Flight.{InFlight, Acks}
use cs144_sponge.Sender.Timer.{BacksOff, ticks, ticks-BacksOff}
use cs144_sponge.Tests.Streams.{three, three-IsValid}

abbrev syn_segment : TcpSegment
syn_segment = record default_segment {
  header = record default_segment.header { seqno = 7; syn = true };
}

abbrev waiting : SenderSegment
waiting = record { seg = syn_segment; rto = 1000; time = 0 }

-- The SYN is under way.
abbrev pub opening : TcpSender
opening = record {
  isn = 7;
  segments_out = [];
  initial_retransmission_timeout = 1000;
  stream = three;
  is_syn_received = false;
  is_fin_received = false;
  last_tick_time = 0;
  consecutive_retrans = 0;
  window_size = 1;
  is_window_zero = false;
  bytes_in_flight = 1;
  seg_queue = waiting ∷ [];
  next_seqno = 1;
}

-- The SYN has been acknowledged, with a window of two.
abbrev pub opened : TcpSender
opened = record opening {
  is_syn_received = true;
  window_size = 2;
  bytes_in_flight = 0;
  seg_queue = [];
}

opened-IsReady : IsReady opened
opened-IsReady = record {
  stream_valid = three-IsValid;
  syn_first = λ e. ground (arith, e);
  quiet = λ e. ground (arith, e);
  first_window = inl refl;
  far = omega arith;
  few = omega arith;
}

fill_window-Fills_example :
    (f : Fills opened (not true) (2 - 0) (take (2 - 0) (contents three)) (fill_window opened))
    × (t : TcpSender) × (fill_window opened ≡ ok tt t)
    × Queued (record opened { stream = f.stream' }) f.segments t
fill_window-Fills_example = fill_window-Fills opened opened-IsReady

opening-InFlight : InFlight opening 0 (syn_segment ∷ [])
unfolding wrap length_in_sequence_space
opening-InFlight = record {
  queue = refl;
  numbered = (refl, tt);
  upto = refl;
  counted = refl;
  short = omega arith;
  far = omega arith;
  isn_small = omega arith;
}

ack_received-Acks_example :
    ((1 ≤ 1) × Acks opening 0 1 (syn_segment ∷ []) (ack_received opening (wrap 1 7) 2))
    ⊎ ((1 < 1) × (ack_received opening (wrap 1 7) 2 ≡ opening))
ack_received-Acks_example =
    ack_received-Acks opening 0 1 2 (syn_segment ∷ []) opening-InFlight (omega arith)
      (omega (arith, dist_le 1 1 (omega arith)))

ticks-BacksOff_example :
    BacksOff opening waiting [] (600 ∷ 600 ∷ 2500 ∷ []) (ticks opening (600 ∷ 600 ∷ 2500 ∷ []))
ticks-BacksOff_example =
    ticks-BacksOff (600 ∷ 600 ∷ 2500 ∷ []) opening waiting [] refl refl (omega arith) (omega arith)
      (omega arith) (omega arith) (omega arith)

-- ===== src/Connection/Reset.antt =====
-- The ways in which a connection of libsponge/tcp_connection.cc ends at once.
use cs144_sponge.Prelude.{◌≡◌, refl, ◌∙◌, inl, inr, Bool-cases, [], true, false, Outcome, ok}
use cs144_sponge.ByteStream
use cs144_sponge.Receiver.{stream_out}
use cs144_sponge.Wrapping.{wrap}
use cs144_sponge.Segment.{TcpSegment, default_segment}
use cs144_sponge.Connection.{TcpConnection, active, segment_received, set_rst, inbound_eof}
use cs144_sponge.TcpState.{State, of_state, state}

-- What a call that sends nothing leaves of a connection that is not active.
pub record StaysShut (c : TcpConnection) (call : Outcome TcpConnection (Unit {0})) : Type 0 where
  pub left : TcpConnection
  pub returns : call ≡ ok tt left
  pub shut : active left ≡ false
  pub silent : left.segments_out ≡ c.segments_out
  pub idle : left.sender.segments_out ≡ c.sender.segments_out

state-set_rst : (c : TcpConnection) → state (set_rst c) ≡ of_state State.reset
unfolding state of_state set_rst active stream_out ByteStream.error ByteStream.set_error
state-set_rst c = refl

set_rst_segments : (c : TcpConnection) → (set_rst c).segments_out ≡ c.segments_out
unfolding set_rst
set_rst_segments c = refl

-- A segment with the RST flag resets the connection in every state, and nothing is sent.
pub segment_received_rst :
    (c : TcpConnection) (seg : TcpSegment)
    → seg.header.rst ≡ true
    → (left : TcpConnection) × (segment_received c seg ≡ ok tt left)
      × (state left ≡ of_state State.reset)
      × (left.segments_out ≡ c.segments_out)
unfolding segment_received
segment_received_rst c seg e =
    let c0 = record c { last_received_time = 0 } in
    (set_rst c0, rw e refl, state-set_rst c0, set_rst_segments c0)

set_rst_idle : (c : TcpConnection) → (set_rst c).sender.segments_out ≡ c.sender.segments_out
unfolding set_rst
set_rst_idle c = refl

active-set_rst : (c : TcpConnection) → active (set_rst c) ≡ false
unfolding set_rst active
active-set_rst c = refl

active_clock : (c : TcpConnection) → active (record c { last_received_time = 0 }) ≡ active c
unfolding active inbound_eof
active_clock c = refl

-- No segment wakes a connection that is not active, and none is answered.
pub segment_received-StaysShut :
    (c : TcpConnection) (seg : TcpSegment) → active c ≡ false → StaysShut c (segment_received c seg)
unfolding segment_received
segment_received-StaysShut c seg h =
    let c0 = record c { last_received_time = 0 } in
    let shut : active c0 ≡ false = active_clock c ∙ h in
    elim (Bool-cases seg.header.rst) [
      | inl e ↦ record {
        left = set_rst c0;
        returns = rw e refl;
        shut = active-set_rst c0;
        silent = set_rst_segments c0;
        idle = set_rst_idle c0;
      }
      | inr e ↦ record {
        left = c0;
        returns = rw (e, shut) refl;
        shut = shut;
        silent = refl;
        idle = refl;
      }
    ]

-- The segment that tells the peer that the connection is reset.
abbrev pub goodbye : TcpConnection → TcpSegment
goodbye c = record {
  header = record default_segment.header {
    seqno = wrap c.sender.next_seqno c.sender.isn;
    rst = true;
  };
  payload = [];
}

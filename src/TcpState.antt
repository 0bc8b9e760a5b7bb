-- ===== src/TcpState.antt =====
-- libsponge/tcp_helpers/tcp_state.hh and tcp_state.cc: the state of a connection in the words of
-- RFC 793. A summary is a string of the source; here each of these strings is a constructor.
use cs144_sponge.Prelude.{
  ◌≡◌, refl, ℕ, ◌&&◌, ◌+◌, Bool, true, false, not, u64, ltb, ◌==◌, if◌then◌else◌,
}
use cs144_sponge.ByteStream
use cs144_sponge.Receiver.{TcpReceiver, ackno, is_some, stream_out}
use cs144_sponge.Sender.{TcpSender}
use cs144_sponge.Connection.{TcpConnection, active}

-- `TCPReceiverStateSummary`.
pub data ReceiverState : Type 0 where
  error listen syn_recv fin_recv : ReceiverState

-- `TCPSenderStateSummary`.
pub data SenderState : Type 0 where
  error closed syn_sent syn_acked fin_sent fin_acked : SenderState

-- `TCPState::State`.
pub data State : Type 0 where
  listen syn_rcvd syn_sent established close_wait last_ack fin_wait_1 fin_wait_2 closing : State
  time_wait closed reset : State

pub record TcpState : Type 0 where
  pub sender : SenderState
  pub receiver : ReceiverState
  pub active : Bool
  pub linger_after_streams_finish : Bool

abbrev running : SenderState → ReceiverState → Bool → TcpState
running s r linger = record {
  sender = s;
  receiver = r;
  active = true;
  linger_after_streams_finish = linger;
}

abbrev over : SenderState → ReceiverState → TcpState
over s r = record { sender = s; receiver = r; active = false; linger_after_streams_finish = false }

-- `TCPState(State)`.
unfoldable pub of_state : State → TcpState
of_state State.listen = running SenderState.closed ReceiverState.listen true
of_state State.syn_rcvd = running SenderState.syn_sent ReceiverState.syn_recv true
of_state State.syn_sent = running SenderState.syn_sent ReceiverState.listen true
of_state State.established = running SenderState.syn_acked ReceiverState.syn_recv true
of_state State.close_wait = running SenderState.syn_acked ReceiverState.fin_recv false
of_state State.last_ack = running SenderState.fin_sent ReceiverState.fin_recv false
of_state State.closing = running SenderState.fin_sent ReceiverState.fin_recv true
of_state State.fin_wait_1 = running SenderState.fin_sent ReceiverState.syn_recv true
of_state State.fin_wait_2 = running SenderState.fin_acked ReceiverState.syn_recv true
of_state State.time_wait = running SenderState.fin_acked ReceiverState.fin_recv true
of_state State.reset = over SenderState.error ReceiverState.error
of_state State.closed = over SenderState.fin_acked ReceiverState.fin_recv

unfoldable pub receiver_summary : TcpReceiver → ReceiverState
receiver_summary r =
    if ByteStream.error (stream_out r)
    then ReceiverState.error
    else if not (is_some (ackno r))
    then ReceiverState.listen
    else if ByteStream.input_ended (stream_out r)
    then ReceiverState.fin_recv
    else ReceiverState.syn_recv

unfoldable pub sender_summary : TcpSender → SenderState
sender_summary s =
    if ByteStream.error s.stream
    then SenderState.error
    else if s.next_seqno == 0
    then SenderState.closed
    else if s.next_seqno == s.bytes_in_flight
    then SenderState.syn_sent
    else if not (ByteStream.eof s.stream)
    then SenderState.syn_acked
    else if ltb s.next_seqno (u64 (s.stream.bytes_written + 2))
    then SenderState.syn_acked
    else if not (s.bytes_in_flight == 0)
    then SenderState.fin_sent
    else SenderState.fin_acked

-- `TCPState(sender, receiver, active, linger)`.
unfoldable pub of_parts : TcpSender → TcpReceiver → Bool → Bool → TcpState
unfolding receiver_summary sender_summary
of_parts s r is_active linger = record {
  sender = sender_summary s;
  receiver = receiver_summary r;
  active = is_active;
  linger_after_streams_finish = if is_active then linger else false;
}

-- `TCPConnection::state`.
unfoldable pub state : TcpConnection → TcpState
unfolding of_parts
state c = of_parts c.sender c.receiver (active c) c.linger_after_streams_finish

-- `operator==`; the strings of the summaries are compared by their places in the lists.
abbrev receiver_code : ReceiverState → ℕ
receiver_code ReceiverState.error = 0
receiver_code ReceiverState.listen = 1
receiver_code ReceiverState.syn_recv = 2
receiver_code ReceiverState.fin_recv = 3

abbrev sender_code : SenderState → ℕ
sender_code SenderState.error = 0
sender_code SenderState.closed = 1
sender_code SenderState.syn_sent = 2
sender_code SenderState.syn_acked = 3
sender_code SenderState.fin_sent = 4
sender_code SenderState.fin_acked = 5

abbrev agree : Bool → Bool → Bool
agree a b = if a then b else not b

pub same : TcpState → TcpState → Bool
same a b =
    agree a.active b.active
    && agree a.linger_after_streams_finish b.linger_after_streams_finish
    && (sender_code a.sender == sender_code b.sender)
    && (receiver_code a.receiver == receiver_code b.receiver)

pub same-syn_sent : same (of_state State.syn_sent) (of_state State.syn_sent) ≡ true
unfolding same of_state
same-syn_sent = refl

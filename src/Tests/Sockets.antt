-- ===== src/Tests/Sockets.antt =====
-- The callbacks of a socket at concrete values.
use cs144_sponge.Prelude.{
  ◌≡◌, ℕ, refl, ◌++◌, List, [], ◌∷◌, none, Bool, true, false, arith, min, length, take, drop,
}
use cs144_sponge.ByteStream
use cs144_sponge.StreamBuffer.{size_all}
use cs144_sponge.Segment.{TcpSegment}
use cs144_sponge.Connection.{remaining_outbound_capacity, TcpConnection}
use cs144_sponge.Connection.History.{Runs-init-Carries}
use cs144_sponge.SpongeSocket.{
  DatagramAdapter, LocalStreamSocket, SpongeSocket, read_owner, rules_for,
}
use cs144_sponge.EventLoop.{FileDescriptor}
use cs144_sponge.TcpState.{State}
use cs144_sponge.Connection.Opening.{Opens}
use cs144_sponge.SpongeSocket.Loop.{connect, tcp_loop, is_state}
use cs144_sponge.SpongeSocket.Loop.Connecting.{connect-Waits}
use cs144_sponge.SpongeSocket.Outbound.{Takes, read_owner-Takes}
use cs144_sponge.Tests.Streams.{three}
use cs144_sponge.Tests.Connections.{
  cfg, bytes, first_connection, sending_done, short_run, syn_out, ack_out, text_out,
}

-- An adapter that keeps what is written to it, with nothing to read.
abbrev kept : DatagramAdapter (List TcpSegment) ℕ
kept = record {
  read = λ a. (none, a);
  write = λ g a. a ++ (g ∷ []);
  adapter_tick = λ ms a. a;
  set_config = λ c a. a;
  set_listening = λ b a. a;
}

abbrev is_nil : List ℕ → Bool
is_nil [] = true
is_nil (x ∷ xs) = false

-- A pair that holds what the owner wrote, and takes two bytes at a time.
abbrev by_two : LocalStreamSocket (List ℕ)
by_two = record {
  read_at_most = λ n d. (take n d, drop n d);
  eof = is_nil;
  write_some = λ str d. (min 2 (length str), d);
  shut_down_write = λ d. d;
}

abbrev socket : SpongeSocket (List TcpSegment) (List ℕ)
socket = record {
  thread_data = 40 ∷ 50 ∷ [];
  datagram_adapter = [];
  tcp = sending_done;
  inbound_shutdown = false;
  outbound_shutdown = false;
  fully_acked = false;
}

read_owner-Takes_example :
    let n = remaining_outbound_capacity sending_done in
    Takes kept by_two first_connection.sender
      (bytes ++ take n (40 ∷ 50 ∷ []))
      (syn_out ∷ (ack_out ∷ (text_out ∷ [])))
      (drop n (40 ∷ 50 ∷ []))
      (read_owner kept by_two socket)
unfolding remaining_outbound_capacity ByteStream.remaining_capacity size_all
read_owner-Takes_example =
    read_owner-Takes kept by_two first_connection.sender bytes
      (syn_out ∷ (ack_out ∷ (text_out ∷ []))) socket
      (Runs-init-Carries cfg 0 (omega arith) (omega arith) short_run).0 refl (omega arith)
      (omega arith)

abbrev three_wait : SpongeSocket (List TcpSegment) (List ℕ)
three_wait = record socket {
  tcp = record sending_done {
    receiver = record sending_done.receiver {
      reassembler = record sending_done.receiver.reassembler { output = three };
    };
  };
}

abbrev open_fd : FileDescriptor (SpongeSocket (List TcpSegment) (List ℕ))
open_fd = record {
  eof = λ s. false;
  closed = λ s. false;
  read_count = λ s. 0;
  write_count = λ s. 0;
}

connect-Waits_example :
    (d : TcpConnection) × Opens cfg 0 d
    × (connect kept by_two open_fd open_fd false ([], socket) cfg 0 5 100 []
        ≡ tcp_loop kept by_two open_fd open_fd
            (is_state kept by_two open_fd open_fd State.syn_sent)
            (
              [] ++ rules_for kept by_two open_fd open_fd [],
              record socket { tcp = d; datagram_adapter = [] },
            )
            100
            [])
connect-Waits_example =
    connect-Waits kept by_two open_fd open_fd ([], socket) cfg 0 5 100 [] (omega arith)

-- ===== src/SpongeSocket.antt =====
-- libsponge/tcp_helpers/tcp_sponge_socket.hh and tcp_sponge_socket.cc: a connection between a datagram
-- adapter and the socket pair to its owner. The adapter, a template parameter of the source, and the
-- calls of the system on the pair are parameters; what `poll` gives, the clock and the owner's wish
-- to abort are arguments.
pub mod Loop
pub mod Outbound
pub mod Inbound
use cs144_sponge.Prelude.{
  ℕ, ◌-◌, List, [], ◌∷◌, Option, none, some, Bool, true, false, not, ◌&&◌, ◌||◌, ◌==◌, ltb, min,
  length, if◌then◌else◌, Outcome, ok, throws, runtime_error, lift, and_then,
}
use cs144_sponge.ByteStream
use cs144_sponge.ByteStream.{ByteStream}
use cs144_sponge.Segment.{TcpSegment}
use cs144_sponge.Connection
use cs144_sponge.Connection.{
  TcpConfig, TcpConnection, active, inbound_stream, remaining_outbound_capacity, segment_received,
  end_input_stream, tick,
}
use cs144_sponge.EventLoop.{
  Direction, Result, FileDescriptor, Rule, PollResult, add_rule, wait_next_event,
}

-- The calls on an adapter; `C` is its configuration.
pub record DatagramAdapter (A C : Type 0) : Type 0 where
  pub read : A → Option TcpSegment × A
  pub write : TcpSegment → A → A
  pub adapter_tick : ℕ → A → A
  pub set_config : C → A → A
  pub set_listening : Bool → A → A

-- The calls on the end of the socket pair; `write_some` returns how many bytes went in.
pub record LocalStreamSocket (D : Type 0) : Type 0 where
  pub read_at_most : ℕ → D → List ℕ × D
  pub eof : D → Bool
  pub write_some : List ℕ → D → ℕ × D
  pub shut_down_write : D → D

-- `TCPSpongeSocket`, once there is a connection.
pub record SpongeSocket (A D : Type 0) : Type 0 where
  pub thread_data : D
  pub datagram_adapter : A
  pub tcp : TcpConnection
  pub inbound_shutdown : Bool
  pub outbound_shutdown : Bool
  pub fully_acked : Bool

-- What one round of `_tcp_loop` meets.
pub record Round : Type 0 where
  pub result : PollResult
  pub abort : Bool
  pub now : ℕ

abbrev pub is_exit : Result → Bool
is_exit Result.success = false
is_exit Result.timeout = false
is_exit Result.exit = true

module _ {A C D : Type 0} (adapter : DatagramAdapter A C) (pipe : LocalStreamSocket D) where
  abbrev set_tcp : SpongeSocket A D → TcpConnection → SpongeSocket A D
  set_tcp s c = record s { tcp = c }

  abbrev pub with_inbound : TcpConnection → ByteStream → TcpConnection
  with_inbound c b = record c {
    receiver = record c.receiver { reassembler = record c.receiver.reassembler { output = b } };
  }

  note_acked : SpongeSocket A D → SpongeSocket A D
  note_acked s =
      if pipe.eof s.thread_data && (s.tcp.sender.bytes_in_flight == 0) && not s.fully_acked
      then record s { fully_acked = true }
      else s

  take_segment : SpongeSocket A D → Option TcpSegment → Outcome (SpongeSocket A D) (Unit {0})
  take_segment s none = ok tt s
  take_segment s (some seg) = lift (set_tcp s) (segment_received s.tcp seg)

  -- Rule 1: from the adapter into the connection.
  pub read_segment : SpongeSocket A D → Outcome (SpongeSocket A D) (Unit {0})
  unfolding note_acked take_segment
  read_segment s =
      let r = adapter.read s.datagram_adapter in
      and_then (take_segment (record s { datagram_adapter = r.1 }) r.0)
        (λ _ t. ok tt (note_acked t))

  pub end_outbound : SpongeSocket A D → Outcome (SpongeSocket A D) (Unit {0})
  end_outbound s =
      and_then (lift (set_tcp s) (end_input_stream s.tcp))
        (λ _ t. ok tt (record t { outbound_shutdown = true }))

  pub after_write : ℕ → ℕ → SpongeSocket A D → Outcome (SpongeSocket A D) (Unit {0})
  unfolding end_outbound
  after_write amount_written len s =
      if not (amount_written == len)
      then throws runtime_error s
      else if pipe.eof s.thread_data
      then end_outbound s
      else ok tt s

  -- Rule 2: from the owner into the connection.
  pub read_owner : SpongeSocket A D → Outcome (SpongeSocket A D) (Unit {0})
  unfolding after_write
  read_owner s =
      let r = pipe.read_at_most (remaining_outbound_capacity s.tcp) s.thread_data in
      let t = record s { thread_data = r.1 } in
      and_then (lift (set_tcp t) (Connection.write t.tcp r.0)) (λ n u. after_write n (length r.0) u)

  wants_owner : SpongeSocket A D → Bool
  wants_owner s =
      active s.tcp && not s.outbound_shutdown && ltb 0 (remaining_outbound_capacity s.tcp)

  pub finish_inbound : SpongeSocket A D → SpongeSocket A D
  finish_inbound s =
      if ByteStream.eof (inbound_stream s.tcp) || ByteStream.error (inbound_stream s.tcp)
      then record s { thread_data = pipe.shut_down_write s.thread_data; inbound_shutdown = true }
      else s

  -- Rule 3: from the connection to the owner, of which the pair may take a part.
  pub write_owner : SpongeSocket A D → Outcome (SpongeSocket A D) (Unit {0})
  unfolding finish_inbound
  write_owner s =
      let inbound = inbound_stream s.tcp in
      let buffer = ByteStream.peek inbound (min 65536 (ByteStream.buffer_size inbound)) in
      let w = pipe.write_some buffer s.thread_data in
      let t = record s { thread_data = w.1 } in
      and_then (lift (λ b. set_tcp t (with_inbound t.tcp b)) (ByteStream.pop_output inbound w.0))
        (λ _ u. ok tt (finish_inbound u))

  pub has_inbound : SpongeSocket A D → Bool
  has_inbound s =
      let inbound = inbound_stream s.tcp in
      not (ByteStream.buffer_empty inbound)
      || ((ByteStream.eof inbound || ByteStream.error inbound) && not s.inbound_shutdown)

  -- Rule 4: from the connection to the adapter. The loop takes the front until there is none.
  pub send_loop : List TcpSegment → SpongeSocket A D → SpongeSocket A D
  send_loop [] s = s
  send_loop (g ∷ gs) s = send_loop gs (record s {
    datagram_adapter = adapter.write g s.datagram_adapter;
    tcp = record s.tcp { segments_out = gs };
  })

  pub send_segments : SpongeSocket A D → SpongeSocket A D
  unfolding send_loop
  send_segments s = send_loop s.tcp.segments_out s

  abbrev has_segments : List TcpSegment → Bool
  has_segments [] = false
  has_segments (g ∷ gs) = true

  -- `_initialize_TCP` puts its rules, over the two file descriptors, behind those that there are.
  pub rules_for :
      FileDescriptor (SpongeSocket A D)
      → FileDescriptor (SpongeSocket A D)
      → List (Rule (SpongeSocket A D))
      → List (Rule (SpongeSocket A D))
  unfolding read_segment read_owner write_owner send_segments wants_owner has_inbound end_outbound
  rules_for datagrams owner rules =
      let one : Rule (SpongeSocket A D) = record {
        fd = datagrams;
        direction = Direction.in_direction;
        callback = read_segment;
        interest = λ s. active s.tcp;
        cancel = λ s. ok tt s;
      } in
      let two : Rule (SpongeSocket A D) = record {
        fd = owner;
        direction = Direction.in_direction;
        callback = read_owner;
        interest = wants_owner;
        cancel = end_outbound;
      } in
      let three : Rule (SpongeSocket A D) = record {
        fd = owner;
        direction = Direction.out_direction;
        callback = write_owner;
        interest = has_inbound;
        cancel = λ s. ok tt s;
      } in
      let four : Rule (SpongeSocket A D) = record {
        fd = datagrams;
        direction = Direction.out_direction;
        callback = λ s. ok tt (send_segments s);
        interest = λ s. has_segments s.tcp.segments_out;
        cancel = λ s. ok tt s;
      } in
      add_rule (add_rule (add_rule (add_rule rules one) two) three) four

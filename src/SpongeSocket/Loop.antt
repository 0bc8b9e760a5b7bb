-- ===== src/SpongeSocket/Loop.antt =====
-- `_tcp_loop` of libsponge/tcp_helpers/tcp_sponge_socket.cc, and the calls that run it. An argument
-- tells whether the optional connection is there; when it is not, the field is not read.
pub mod Connecting
use cs144_sponge.Prelude.{
  ℕ, List, [], ◌∷◌, Bool, true, not, ◌||◌, sub64, if◌then◌else◌, Outcome, ok, throws, runtime_error,
  lift, and_then,
}
use cs144_sponge.Connection
use cs144_sponge.Connection.{TcpConfig, TcpConnection, active, tick}
use cs144_sponge.EventLoop.{FileDescriptor, Rule, wait_next_event}
use cs144_sponge.TcpState.{State, of_state, state, same}
use cs144_sponge.SpongeSocket.{
  DatagramAdapter, LocalStreamSocket, SpongeSocket, Round, is_exit, rules_for,
}

module _ {A C D : Type 0} (adapter : DatagramAdapter A C) (pipe : LocalStreamSocket D)
    (datagrams owner : FileDescriptor (SpongeSocket A D)) where
  -- The rules of the loop, and the socket.
  abbrev pub Looping : Type 0
  Looping = List (Rule (SpongeSocket A D)) × SpongeSocket A D

  -- The clock of the connection and of the adapter, and the time up to which they know.
  pass_time : SpongeSocket A D → ℕ → ℕ → SpongeSocket A D × ℕ
  pass_time s base_time next_time =
      if active s.tcp
      then (
        record s {
          tcp = tick s.tcp (sub64 next_time base_time);
          datagram_adapter = adapter.adapter_tick (sub64 next_time base_time) s.datagram_adapter;
        },
        next_time,
      )
      else (s, base_time)

  -- It returns whether the loop is over; it is not when the rounds run out before.
  pub tcp_loop : (SpongeSocket A D → Bool) → Looping → ℕ → List Round → Outcome Looping Bool
  unfolding pass_time
  tcp_loop condition l base_time [] = ok (not (condition l.1)) l
  tcp_loop condition l base_time (e ∷ es) =
      let go = and_then (wait_next_event l.0 l.1 e.result) (λ ret t.
        let p = pass_time t.1 base_time e.now in
        let rest = tcp_loop condition (t.0, p.0) p.1 es in
        if is_exit ret || e.abort then ok true t else rest) in
      if condition l.1 then go else ok true l

  pub initialize_tcp : Looping → TcpConfig → ℕ → Looping
  initialize_tcp l config random = (
    rules_for adapter pipe datagrams owner l.0,
    record l.1 { tcp = Connection.init config random },
  )

  abbrev pub is_state : State → SpongeSocket A D → Bool
  is_state x s = same (state s.tcp) (of_state x)

  -- Behind `connect` of the connection.
  wait_connected : Looping → ℕ → List Round → Outcome Looping Bool
  unfolding tcp_loop
  wait_connected l base_time rounds =
      if not (is_state State.syn_sent l.1)
      then throws runtime_error l
      else tcp_loop (is_state State.syn_sent) l base_time rounds

  pub connect : Bool → Looping → TcpConfig → ℕ → C → ℕ → List Round → Outcome Looping Bool
  unfolding initialize_tcp wait_connected
  connect has_tcp l config random c base_time rounds =
      let i = initialize_tcp l config random in
      let s = record i.1 { datagram_adapter = adapter.set_config c i.1.datagram_adapter } in
      if has_tcp
      then throws runtime_error l
      else and_then (lift (λ t. (i.0, record s { tcp = t })) (Connection.connect s.tcp))
          (λ _ t. wait_connected t base_time rounds)

  not_connected : SpongeSocket A D → Bool
  not_connected s =
      is_state State.listen s || (is_state State.syn_rcvd s || is_state State.syn_sent s)

  pub listen_and_accept : Bool → Looping → TcpConfig → ℕ → C → ℕ → List Round → Outcome Looping Bool
  unfolding initialize_tcp tcp_loop not_connected
  listen_and_accept has_tcp l config random c base_time rounds =
      let i = initialize_tcp l config random in
      let a = adapter.set_listening true (adapter.set_config c i.1.datagram_adapter) in
      if has_tcp
      then throws runtime_error l
      else tcp_loop not_connected (i.0, record i.1 { datagram_adapter = a }) base_time rounds

  -- The thread of the connection, up to the end of its loop.
  pub tcp_main : Bool → Looping → ℕ → List Round → Outcome Looping Bool
  unfolding tcp_loop
  tcp_main has_tcp l base_time rounds =
      if has_tcp then tcp_loop (λ _. true) l base_time rounds else throws runtime_error l

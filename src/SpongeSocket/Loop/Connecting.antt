-- ===== src/SpongeSocket/Loop/Connecting.antt =====
-- `connect` of libsponge/tcp_helpers/tcp_sponge_socket.cc on a socket without a connection.
use cs144_sponge.Prelude.{
  ℕ, [], ◌++◌, append_assoc, ◌^◌, ◌<◌, ◌≡◌, refl, ap, ◌∙◌, List, true, false, lift, and_then,
}
use cs144_sponge.Connection.{TcpConfig, TcpConnection}
use cs144_sponge.Connection.Opening.{Opens, connect-Opens}
use cs144_sponge.EventLoop.{FileDescriptor, Rule, add_rule}
use cs144_sponge.TcpState.{State, of_state, state, same, same-syn_sent}
use cs144_sponge.SpongeSocket.{DatagramAdapter, LocalStreamSocket, SpongeSocket, Round, rules_for}
use cs144_sponge.SpongeSocket.Loop.{
  Looping, is_state, wait_connected, tcp_loop, connect, initialize_tcp,
}

module _ {A C D : Type 0} (adapter : DatagramAdapter A C) (pipe : LocalStreamSocket D)
    (datagrams owner : FileDescriptor (SpongeSocket A D)) where
  wait_connected_lem :
      (l : Looping adapter pipe datagrams owner) (base_time : ℕ) (rounds : List Round)
      → state l.1.tcp ≡ of_state State.syn_sent
      → wait_connected adapter pipe datagrams owner l base_time rounds
        ≡ tcp_loop adapter pipe datagrams owner
            (is_state adapter pipe datagrams owner State.syn_sent)
            l
            base_time
            rounds
  unfolding wait_connected
  wait_connected_lem l base_time rounds e =
      let t : is_state adapter pipe datagrams owner State.syn_sent l.1 ≡ true =
        ap (λ x. same x (of_state State.syn_sent)) e ∙ same-syn_sent in
      rw t refl

  rules_for-append :
      (rules : List (Rule (SpongeSocket A D)))
      → rules_for adapter pipe datagrams owner rules
        ≡ rules ++ rules_for adapter pipe datagrams owner []
  unfolding rules_for add_rule
  rules_for-append rules =
      append_assoc (add_rule (add_rule rules _) _) _ _
      ∙ append_assoc (add_rule rules _) _ _
      ∙ append_assoc rules _ _

  -- The check of the state behind `connect` never fails: a socket without a connection, whose receiving
  -- capacity fits 64 bits, puts out the SYN, is in SYN_SENT, and runs its loop, over the rules that
  -- there were with the four new ones behind them and with the new configuration of its adapter, until
  -- it is not.
  pub connect-Waits :
      (l : Looping adapter pipe datagrams owner) (config : TcpConfig) (random : ℕ) (c : C)
      (base_time : ℕ) (rounds : List Round)
      → config.recv_capacity < 2 ^ 64
      → (d : TcpConnection) × Opens config random d
        × (connect adapter pipe datagrams owner false l config random c base_time rounds
            ≡ tcp_loop adapter pipe datagrams owner
                (is_state adapter pipe datagrams owner State.syn_sent)
                (
                  l.0 ++ rules_for adapter pipe datagrams owner [],
                  record l.1 {
                    tcp = d;
                    datagram_adapter = adapter.set_config c l.1.datagram_adapter;
                  },
                )
                base_time
                rounds)
  unfolding connect initialize_tcp
  connect-Waits l config random c base_time rounds h =
      let (d, e, o) = connect-Opens config random h in
      let s : TcpConnection → Looping adapter pipe datagrams owner = λ t. (
        rules_for adapter pipe datagrams owner l.0,
        record l.1 { tcp = t; datagram_adapter = adapter.set_config c l.1.datagram_adapter },
      ) in
      (
        d,
        o,
        ap
              (λ r.
                and_then (lift s r)
                  (λ _ t. wait_connected adapter pipe datagrams owner t base_time rounds))
              e
            ∙ wait_connected_lem (s d) base_time rounds o.waits
            ∙ ap
                (λ rules.
                  tcp_loop adapter pipe datagrams owner
                    (is_state adapter pipe datagrams owner State.syn_sent) (rules, (s d).1)
                    base_time rounds)
                (rules_for-append l.0),
      )

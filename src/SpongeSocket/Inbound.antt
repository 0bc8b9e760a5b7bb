-- ===== src/SpongeSocket/Inbound.antt =====
-- From a connection to the owner of a socket: libsponge/tcp_helpers/tcp_sponge_socket.cc.
use cs144_sponge.Prelude.{ℕ, ◌≡◌, List, drop, Outcome, ok, lift, and_then}
use cs144_sponge.ByteStream
use cs144_sponge.ByteStream.{ByteStream}
use cs144_sponge.ByteStream.Queue
use cs144_sponge.ByteStream.Queue.{contents, Reads}
use cs144_sponge.Connection.{inbound_stream}
use cs144_sponge.SpongeSocket.{
  DatagramAdapter, LocalStreamSocket, SpongeSocket, finish_inbound, with_inbound,
}

module _ {A C D : Type 0} (adapter : DatagramAdapter A C) (pipe : LocalStreamSocket D) where
  -- Behind the choice of what to offer.
  offer : SpongeSocket A D → List ℕ → Outcome (SpongeSocket A D) (Unit {0})
  offer s buffer =
      let w = pipe.write_some buffer s.thread_data in
      let t : SpongeSocket A D = record s { thread_data = w.1 } in
      and_then
        (lift (λ b. record t { tcp = with_inbound adapter pipe t.tcp b })
          (ByteStream.pop_output (inbound_stream s.tcp) w.0))
        (λ _ u. ok tt (finish_inbound adapter pipe u))

  -- What the callback that writes to the owner leaves, when the pair takes `n` bytes of it.
  pub record Gives (s : SpongeSocket A D) (n : ℕ) (call : Outcome (SpongeSocket A D) (Unit {0}))
      : Type 0 where
    pub after : SpongeSocket A D
    pub returns : call ≡ ok tt after
    pub left : contents (inbound_stream after.tcp) ≡ drop n (contents (inbound_stream s.tcp))
    pub valid : Queue.IsValid (inbound_stream after.tcp)
    pub sender_kept : after.tcp.sender ≡ s.tcp.sender

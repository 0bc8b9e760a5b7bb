-- ===== src/SpongeSocket/Outbound.antt =====
-- From the owner of a socket into its connection, and from the connection to the adapter:
-- libsponge/tcp_helpers/tcp_sponge_socket.cc.
use cs144_sponge.Prelude.{
  ℕ, ◌+◌, ◌^◌, ◌≤◌, ◌<◌, ◌≡◌, refl, sym, ap, subst, ◌∙◌, inl, inr, List, ◌++◌, true, false, not,
  ◌==◌, Bool-cases, arith, length, take, take_of_le, Outcome, ok, lift, and_then,
}
use cs144_sponge.ByteStream
use cs144_sponge.ByteStream.Queue.{write-Written, remaining_capacity_lem}
use cs144_sponge.Segment.{TcpSegment}
use cs144_sponge.Sender.{TcpSender}
use cs144_sponge.Connection.{TcpConnection, remaining_outbound_capacity}
use cs144_sponge.Connection.Carries.{Carries}
use cs144_sponge.Connection.History.{
  write-Carries, end_input_stream-Carries, remaining_outbound_capacity_lem,
}
use cs144_sponge.SpongeSocket.{
  DatagramAdapter, LocalStreamSocket, SpongeSocket, read_owner, after_write, end_outbound,
}

module _ {A C D : Type 0} (adapter : DatagramAdapter A C) (pipe : LocalStreamSocket D)
    (s0 : TcpSender) (bs : List ℕ) (gone : List TcpSegment) where
  -- What a callback leaves of a socket whose connection carries a stream.
  pub record Takes (d : D) (call : Outcome (SpongeSocket A D) (Unit {0})) : Type 0 where
    pub after : SpongeSocket A D
    pub returns : call ≡ ok tt after
    pub carries : Carries s0 bs gone after.tcp
    pub pair : after.thread_data ≡ d

  end_outbound-Takes :
      (s : SpongeSocket A D)
      → Carries s0 bs gone s.tcp
      → Takes s.thread_data (end_outbound adapter pipe s)
  unfolding end_outbound
  end_outbound-Takes s k =
      let (d, e, m) = end_input_stream-Carries s0 bs gone s.tcp k in
      record {
        after = record s { tcp = d; outbound_shutdown = true };
        returns =
            ap
              (λ o.
                and_then (lift (λ c. record s { tcp = c }) o)
                  (λ _ t. ok tt (record t { outbound_shutdown = true })))
              e;
        carries = m;
        pair = refl;
      }

  after_write-Takes :
      (n : ℕ) (s : SpongeSocket A D)
      → Carries s0 bs gone s.tcp
      → Takes s.thread_data (after_write adapter pipe n n s)
  unfolding after_write
  after_write-Takes n s k =
      let q : not (n == n) ≡ false = ground arith in
      elim (Bool-cases (pipe.eof s.thread_data)) [
        | inl e ↦ rw (q, e) (end_outbound-Takes s k)
        | inr e ↦ rw (q, e) (record { after = s; returns = refl; carries = k; pair = refl })
      ]

module _ {A C D : Type 0} (adapter : DatagramAdapter A C) (pipe : LocalStreamSocket D)
    (s0 : TcpSender) (bs : List ℕ) (gone : List TcpSegment) where
  -- All that is read from the pair goes into the stream.
  write_all :
      (c : TcpConnection) (str : List ℕ)
      → Carries s0 bs gone c
      → length str ≤ remaining_outbound_capacity c
      → (ByteStream.write c.sender.stream str).0 ≡ length str
  write_all c str k h =
      let v = k.holds.stream_valid in
      omega (
        arith,
        (write-Written str v).0,
        remaining_outbound_capacity_lem c,
        remaining_capacity_lem v,
      )

  -- The callback that reads from the owner does not throw, if the read gives no more than it is asked
  -- for: the connection takes every byte that was read, behind those that it took before, and all
  -- that holds of its histories still holds.
  pub read_owner-Takes :
      (s : SpongeSocket A D)
      → Carries s0 bs gone s.tcp
      → s.tcp.sender.stream.is_input_end ≡ false
      → let r = pipe.read_at_most (remaining_outbound_capacity s.tcp) s.thread_data in
        length r.0 ≤ remaining_outbound_capacity s.tcp
        → length bs + length r.0 + 2 ^ 17 < 2 ^ 64
        → Takes adapter pipe s0 (bs ++ r.0) gone r.1 (read_owner adapter pipe s)
  unfolding read_owner
  read_owner-Takes s k e h far =
      let r = pipe.read_at_most (remaining_outbound_capacity s.tcp) s.thread_data in
      let (d, q, m) = write-Carries s0 bs gone s.tcp r.0 k e far in
      let n = write_all s.tcp r.0 k h in
      let t : SpongeSocket A D = record s { thread_data = r.1; tcp = d } in
      let x : take (ByteStream.write s.tcp.sender.stream r.0).0 r.0 ≡ r.0 =
        take_of_le _ r.0 (omega (arith, n)) in
      let w : read_owner adapter pipe s ≡ after_write adapter pipe (length r.0) (length r.0) t =
        ap
          (λ o.
            and_then (lift (λ c. record s { thread_data = r.1; tcp = c }) o)
              (λ n u. after_write adapter pipe n (length r.0) u))
          q
        ∙ ap (λ n. after_write adapter pipe n (length r.0) t) n in
      subst (Takes adapter pipe s0 (bs ++ r.0) gone r.1) (sym w) (
        after_write-Takes adapter pipe s0 (bs ++ r.0) gone (length r.0) t
          (subst (λ l. Carries s0 (bs ++ l) gone d) x m))
